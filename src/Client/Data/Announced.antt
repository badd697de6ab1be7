-- ===== src/Client/Data/Announced.antt =====
-- PASV and EPSV from end to end: what the handlers of server/session_transfer.go answer, read and
-- understood by the client (control.go, data.go).
use ftp.Base.{
  ℕ, ◌/◌, ◌%◌, ◌≤◌, List, [], ◌∷◌, ◌++◌, ◌≡◌, refl, ap, ◌∙◌, arith, some, none, Bytes, text, join,
  show_nat, All, none_of, none_of-All, All-append, is_eol, is_digit, true, false, not,
  if◌then◌else◌, pos, show_nat-digits, space, Option,
}
use ftp.Session.State.{
  Ip, Out, is_v4, Env, Session, Outcome, done, panic, deadlock, please_login, write, reply_line,
  reply,
}
use ftp.Session.Text.{print_out}
use ftp.Session.Address.{
  handle_pasv, handle_epsv, pasv_arg, listen_passive, resolve_host, pasv_host, with_listener,
}
use ftp.Client.Reply.{Response, response_string, read_response, to_lines, got}
use ftp.Client.Printed.{IsText, line_of, read_response-reply_line}
use ftp.Client.Data.{parse_pasv, parse_epsv, join_host_port, dotted}
use ftp.Client.Data.Active.{split-dotted}
use ftp.Client.Data.Passive.{parse_pasv-line, parse_epsv-line}

digits-IsText : (s : Bytes) → All (λ c. is_digit c ≡ true) s → IsText s
digits-IsText [] h = tt
digits-IsText (c ∷ s) h = (ground arith, digits-IsText s h.1)

show_nat-IsText : (n : ℕ) → IsText (show_nat n)
show_nat-IsText n = digits-IsText (show_nat n) (show_nat-digits n)

join-IsText : (ps : List Bytes) → All IsText ps → IsText (join (text ",") ps)
unfolding join text
join-IsText [] h = tt
join-IsText (p ∷ []) h = h.0
join-IsText (p ∷ q ∷ ps) h = All-append _ p _ h.0 (refl, join-IsText (q ∷ ps) h.1)

-- What PASV answers for an address of four bytes.
abbrev pub pasv_message : ℕ → ℕ → ℕ → ℕ → ℕ → Bytes
pasv_message a b c d port =
    text "Entering Passive Mode ("
    ++ (join (text ",") (
          show_nat a
          ∷ show_nat b
          ∷ show_nat c
          ∷ show_nat d
          ∷ show_nat (port / 256)
          ∷ show_nat (port % 256)
          ∷ [])
        ++ text ").")

pasv_opening-IsText : IsText (text "Entering Passive Mode (")
unfolding text none_of
pasv_opening-IsText = none_of-All is_eol (text "Entering Passive Mode (") refl

pasv_message-IsText : (a b c d port : ℕ) → IsText (pasv_message a b c d port)
pasv_message-IsText a b c d port =
    All-append _ (text "Entering Passive Mode (") _ pasv_opening-IsText (
      All-append _ (join (text ",") _) (text ").")
        (join-IsText _ (
          show_nat-IsText a,
          (
            show_nat-IsText b,
            (
              show_nat-IsText c,
              (
                show_nat-IsText d,
                (show_nat-IsText (port / 256), (show_nat-IsText (port % 256), tt)),
              ),
            ),
          ),
        ))
        (unfold text in (refl, (refl, tt))))

pasv_arg-dotted :
    {Ctx : Type 0} (e : Env Ctx) (ip : Ip) (a b c d port : ℕ)
    → is_v4 ip ≡ true
    → e.net.ip_string ip ≡ dotted a b c d
    → text "Entering Passive Mode (" ++ (pasv_arg e (some ip) port ++ text ").")
      ≡ pasv_message a b c d port
unfolding pasv_arg
pasv_arg-dotted e ip a b c d port v h = rw (pasv_arg, h, split-dotted a b c d, v) refl

epsv_message : ℕ → Bytes
epsv_message l = text "Entering Extended Passive Mode (|||" ++ (show_nat l ++ text "|)")

epsv_message-IsText : (l : ℕ) → IsText (epsv_message l)
unfolding epsv_message text none_of
epsv_message-IsText l =
    All-append _ (text "Entering Extended Passive Mode (|||") _
      (none_of-All is_eol (text "Entering Extended Passive Mode (|||") refl)
      (All-append _ (show_nat l) (text "|)") (show_nat-IsText l) (refl, (refl, tt)))

module _ {Ctx : Type 0} (e : Env Ctx) (s : Session Ctx) (ctx : Ctx) where
  abbrev listening : ℕ → Session Ctx
  listening l = record s { pasv_list = some l }

  -- The host that PASV announces, and the session with its lookup.
  abbrev pub announced : ℕ → Session Ctx × Option Ip
  announced l = resolve_host e (pasv_host e (e.driver.get_settings ctx)) (listening l)

  announced-keeps : (l : ℕ) → ((announced l).0.mu ≡ s.mu) × ((announced l).0.pasv_list ≡ some l)
  unfolding resolve_host
  announced-keeps l = ground arith

  with_listener-some :
      (l : ℕ) (k : Ctx → ℕ → Session Ctx → Outcome (Session Ctx))
      → s.fs ≡ some ctx
      → listen_passive e ctx ≡ some l
      → with_listener e s k ≡ k ctx l (listening l)
  with_listener-some l k fs h =
      ap
        (λ (f : Option Ctx). elim f [
          | none ↦ panic
          | some c ↦ elim (listen_passive e c) [
            | none ↦ reply 425 (text "Can't open passive connection.") s
            | some n ↦ k c n (listening n)
          ]
        ])
        fs
      ∙ ap
          (λ (o : Option ℕ). elim o [
            | none ↦ reply 425 (text "Can't open passive connection.") s
            | some n ↦ k ctx n (listening n)
          ])
          h

  pasv_reply : ℕ → Session Ctx × Option Ip → Outcome (Session Ctx)
  pasv_reply l r = reply 227 (text "Entering Passive Mode (" ++ (pasv_arg e r.1 l ++ text ").")) r.0

  abbrev pasv_rest : Ctx → ℕ → Session Ctx → Outcome (Session Ctx)
  unfolding pasv_reply
  pasv_rest c n t = pasv_reply n (resolve_host e (pasv_host e (e.driver.get_settings c)) t)

  abbrev epsv_rest : Ctx → ℕ → Session Ctx → Outcome (Session Ctx)
  epsv_rest c n =
      reply 229 (text "Entering Extended Passive Mode (|||" ++ (show_nat n ++ text "|)"))

  if_logged :
      (k : Outcome (Session Ctx))
      → s.is_logged_in ≡ true
      → (if not s.is_logged_in then please_login s else k) ≡ k
  if_logged k li = ap (λ b. if not b then please_login s else k) li

  handle_pasv-listens :
      (l : ℕ)
      → s.is_logged_in ≡ true
      → s.fs ≡ some ctx
      → listen_passive e ctx ≡ some l
      → handle_pasv e s ≡ pasv_reply l (announced l)
  unfolding handle_pasv pasv_reply
  handle_pasv-listens l li fs h =
      if_logged (with_listener e s pasv_rest) li ∙ with_listener-some l pasv_rest fs h

  handle_epsv-listens :
      (l : ℕ)
      → s.is_logged_in ≡ true
      → s.fs ≡ some ctx
      → listen_passive e ctx ≡ some l
      → handle_epsv e s
        ≡ reply 229
            (text "Entering Extended Passive Mode (|||" ++ (show_nat l ++ text "|)"))
            (listening l)
  unfolding handle_epsv
  handle_epsv-listens l li fs h =
      if_logged (with_listener e s epsv_rest) li ∙ with_listener-some l epsv_rest fs h

  reply-free :
      (code : ℕ) (m : Bytes) (t : Session Ctx)
      → t.mu ≡ false
      → reply code m t ≡ done (write (reply_line code m) t)
  unfolding reply
  reply-free code m t h = ap (λ b. if b then deadlock else done (write (reply_line code m) t)) h

  -- A session with a login, its mutex free, and a listener to be had on a port; the host that PASV
  -- announces resolves to an IPv4 address that prints as four numbers of a byte each. Then PASV is
  -- answered with that listener open, and the client, reading the reply off the connection with
  -- anything after it, reads exactly it, and understands it as that address and that port.
  pub handle_pasv-parse_pasv :
      (l a b c d : ℕ) (ip : Ip) (rest : Bytes)
      → s.is_logged_in ≡ true
      → s.fs ≡ some ctx
      → s.mu ≡ false
      → listen_passive e ctx ≡ some l
      → (announced l).1 ≡ some ip
      → is_v4 ip ≡ true
      → e.net.ip_string ip ≡ dotted a b c d
      → a ≤ 255
      → b ≤ 255
      → c ≤ 255
      → d ≤ 255
      → l ≤ 65535
      → (t : Session Ctx) × (o : Out) × (r : Response) × (handle_pasv e s ≡ done (write o t))
        × (t.pasv_list ≡ some l)
        × (read_response (to_lines (print_out o ++ rest)) ≡ got r (to_lines rest))
        × (parse_pasv (response_string r) ≡ some (join_host_port (dotted a b c d) (show_nat l)))
  unfolding pasv_reply text join
  handle_pasv-parse_pasv l a b c d ip rest li fs m h rh v p ha hb hc hd hl =
      let said = pasv_message a b c d l in
      let (free, open_list) = announced-keeps l in
      (
        (announced l).0,
        reply_line 227 said,
        record { code = pos 227; message = said; lines = line_of 227 space said ∷ [] },
        handle_pasv-listens l li fs h
            ∙ ap
                (λ i.
                  reply 227 (text "Entering Passive Mode (" ++ (pasv_arg e i l ++ text ")."))
                    (announced l).0)
                rh
            ∙ ap (λ n. reply 227 n (announced l).0) (pasv_arg-dotted e ip a b c d l v p)
            ∙ reply-free 227 said (announced l).0 (free ∙ m),
        open_list,
        read_response-reply_line 227 said (omega arith) (omega arith)
            (pasv_message-IsText a b c d l) rest,
        parse_pasv-line a b c d l ha hb hc hd hl,
      )

  -- A session with a login, its mutex free, and a listener to be had on a port. Then EPSV is answered
  -- with that listener open, and the client, reading the reply off the connection with anything after
  -- it, reads exactly it, and understands it as that port.
  pub handle_epsv-parse_epsv :
      (l : ℕ) (rest : Bytes)
      → s.is_logged_in ≡ true
      → s.fs ≡ some ctx
      → s.mu ≡ false
      → listen_passive e ctx ≡ some l
      → l ≤ 65535
      → (t : Session Ctx) × (o : Out) × (r : Response) × (handle_epsv e s ≡ done (write o t))
        × (t.pasv_list ≡ some l)
        × (read_response (to_lines (print_out o ++ rest)) ≡ got r (to_lines rest))
        × (parse_epsv (response_string r) ≡ some (show_nat l))
  unfolding epsv_message text join
  handle_epsv-parse_epsv l rest li fs m h hl =
      let said = epsv_message l in
      (
        listening l,
        reply_line 229 said,
        record { code = pos 229; message = said; lines = line_of 229 space said ∷ [] },
        handle_epsv-listens l li fs h ∙ reply-free 229 said (listening l) m,
        refl,
        read_response-reply_line 229 said (omega arith) (omega arith) (epsv_message-IsText l) rest,
        parse_epsv-line l hl,
      )
