-- ===== src/Client/Facts/Status.antt =====
-- MLST from end to end: what the handler of server/session_info.go answers, read by the client
-- (control.go, mlst.go).
use ftp.Base.{
  ◌^◌, ◌<◌, Bytes, Bool, Option, List, [], ◌∷◌, ◌++◌, ◌≡◌, refl, ap, sym, ◌∙◌, arith, true, false,
  not, ◌&&◌, ◌||◌, some, none, All, All-append, text, join, space, lf, is_eol, may_space, ◌≢◌,
  end_width, end_width-after, space_width-plain, reverse, trim_space, trim_space-front, length,
  ◌==◌, if◌then◌else◌, pos, append-nil, is_empty, leb, int_eq, none_of, none_of-All,
}
use ftp.Session.State.{
  FileInfo, Env, Out, Session, Outcome, done, panic, ok, fail, Res, not_logged_in, with_fs, write,
  reply_line, cont_line, raw_line, reply,
}
use ftp.Session.Text.{print_out}
use ftp.Session.Info.{ml_entry, handle_mlst}
use ftp.Client.Reply.{Response, read_response, to_lines, got, byte_at, message_parts}
use ftp.Client.Printed.{IsText, line_of, read_response-print_all}
use ftp.Client.Facts.{ml_stat, parse_ml_entry, entry_line}
use ftp.Client.Facts.Entries.{
  seen, parse_ml_entry-ml_entry, AllDigits, ml_entry-facts, facts_spaceless, facts_text,
}

handle_mlst-info :
    {Ctx : Type 0} (e : Env Ctx) (s : Session Ctx) (path : Bytes) (ctx : Ctx) (f : FileInfo)
    → s.is_logged_in ≡ true
    → s.fs ≡ some ctx
    → e.driver.get_file_info path ctx ≡ ok f
    → handle_mlst e path s
      ≡ done (
          write
            (reply_line 250 (text "End"))
            (write (raw_line (ml_entry f)) (write (cont_line 250 (text " Listing follows")) s)))
unfolding handle_mlst
handle_mlst-info {Ctx} e s path ctx f l fs i =
    ap (λ b. if not b then not_logged_in s else with_fs s answer) l
    ∙ ap (λ (o : Option Ctx). elim o [ none ↦ panic | some c ↦ answer c ]) fs
    ∙ ap answer_with i
  where
    answer_with : Res FileInfo → Outcome (Session Ctx)
    answer_with (fail x) = reply 550 (text "Could not get file info.") s
    answer_with (ok info) = done (
        write (reply_line 250 (text "End"))
          (write (raw_line (ml_entry info)) (write (cont_line 250 (text " Listing follows")) s)))

    answer : Ctx → Outcome (Session Ctx)
    answer c = answer_with (e.driver.get_file_info path c)

spaceless-IsText : (s : Bytes) → All (λ c. may_space c ≡ false) s → IsText s
spaceless-IsText [] h = tt
spaceless-IsText (c ∷ s) h = (ground arith, spaceless-IsText s h.1)

entry_line-skip :
    (l : Bytes) (ls : List Bytes)
    → (leb 4 (length l) && (byte_at l 3 == b'-' || byte_at l 3 == space)) ≡ true
    → entry_line (l ∷ ls) ≡ entry_line ls
unfolding entry_line
entry_line-skip l ls h = rw h refl

entry_line-take :
    (l : Bytes) (ls : List Bytes)
    → (leb 4 (length l) && (byte_at l 3 == b'-' || byte_at l 3 == space)) ≡ false
    → is_empty (trim_space l) ≡ false
    → entry_line (l ∷ ls) ≡ trim_space l
unfolding entry_line
entry_line-take l ls h n = rw (entry_line, h, n) refl

opening-IsText : IsText (text " Listing follows")
unfolding text none_of
opening-IsText = none_of-All is_eol (text " Listing follows") refl

and_false : (b : Bool) → (b && false) ≡ false
and_false b = ground arith

module _ (f : FileInfo) (stamp : AllDigits f.mod_time) where
  ml_entry-IsText : IsText f.name → IsText (ml_entry f)
  ml_entry-IsText h = rw (ml_entry-facts f stamp) (
      All-append _ (facts_text f stamp) (space ∷ f.name)
        (spaceless-IsText (facts_text f stamp) (facts_spaceless f stamp)) (refl, h))

  trimmed :
      f.name ≢ [] → end_width (reverse f.name) ≡ 0 → trim_space (space ∷ ml_entry f) ≡ ml_entry f
  unfolding ml_entry text
  trimmed ne h =
      trim_space-front (ml_entry f) (λ e. cc) (space_width-plain b't' _ refl)
        (ap (λ t. end_width (reverse t)) (ml_entry-facts f stamp)
          ∙ end_width-after (facts_text f stamp) f.name ne h)

  entry_line-lines :
      f.name ≢ []
      → end_width (reverse f.name) ≡ 0
      → entry_line (
          line_of 250 b'-' (text " Listing follows")
          ∷ (space ∷ ml_entry f)
          ∷ line_of 250 space (text "End")
          ∷ [])
        ≡ ml_entry f
  unfolding text ml_entry
  entry_line-lines ne h =
      entry_line-skip (line_of 250 b'-' (text " Listing follows")) _ refl
      ∙ entry_line-take (space ∷ ml_entry f) _ (and_false (leb 4 (length (space ∷ ml_entry f))))
          (ap is_empty (trimmed ne h))
      ∙ trimmed ne h

  abbrev mlst_response : Response
  mlst_response =
      let lines =
        line_of 250 b'-' (text " Listing follows")
        ∷ (space ∷ ml_entry f)
        ∷ line_of 250 space (text "End")
        ∷ [] in
      record { code = pos 250; message = join (lf ∷ []) (message_parts lines); lines = lines }

  ml_stat-response :
      {Time : Type 0} (parse_time : Bytes → Option Time)
      → length f.mod_time ≡ 14
      → f.size < 2 ^ 63
      → f.name ≢ []
      → end_width (reverse f.name) ≡ 0
      → ml_stat parse_time mlst_response ≡ some (seen f stamp parse_time)
  unfolding ml_stat ml_entry text int_eq
  ml_stat-response parse_time t fits n hw =
      ap (λ l. if is_empty l then none else parse_ml_entry parse_time l) (entry_line-lines n hw)
      ∙ parse_ml_entry-ml_entry f stamp parse_time t fits

  -- A file or a directory, with a time of 14 digits, a size below 2 ^ 63 and a name that is a text, not
  -- empty, and ends in no white space, of ASCII or beyond. In a session with a login whose driver
  -- finds it, MLST writes three lines; the client, with anything after them, reads exactly these as
  -- one reply, and takes from it the file's name, type, size and time.
  pub handle_mlst-ml_stat :
      {Ctx Time : Type 0} (e : Env Ctx) (parse_time : Bytes → Option Time) (s : Session Ctx)
      (path : Bytes) (ctx : Ctx) (rest : Bytes)
      → s.is_logged_in ≡ true
      → s.fs ≡ some ctx
      → e.driver.get_file_info path ctx ≡ ok f
      → length f.mod_time ≡ 14
      → f.size < 2 ^ 63
      → IsText f.name
      → f.name ≢ []
      → end_width (reverse f.name) ≡ 0
      → (a b c : Out) × (r : Response) × (handle_mlst e path s
          ≡ done (write c (write b (write a s))))
        × (read_response (to_lines (print_out a ++ (print_out b ++ (print_out c ++ rest))))
            ≡ got r (to_lines rest))
        × (ml_stat parse_time r ≡ some (seen f stamp parse_time))
  unfolding text
  handle_mlst-ml_stat e parse_time s path ctx rest l fs i t fits name_text n hw =
      let first = text " Listing follows" in
      let entry = raw_line (ml_entry f) in
      let last = reply_line 250 (text "End") in
      (
        cont_line 250 first,
        entry,
        last,
        mlst_response,
        handle_mlst-info e s path ctx f l fs i,
        ap
              (λ b.
                read_response
                  (to_lines (print_out (cont_line 250 first) ++ (b ++ (print_out last ++ rest)))))
              (sym (append-nil (print_out entry)))
            ∙ read_response-print_all 250 (omega arith) (omega arith) first (text "End")
                (entry ∷ []) rest opening-IsText (ml_entry-IsText name_text, tt)
                (refl, (refl, (refl, tt))),
        ml_stat-response parse_time t fits n hw,
      )
