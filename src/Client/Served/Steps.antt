-- ===== src/Client/Served/Steps.antt =====
-- Each edit of a client (directory.go) against the handler that serves it (server/session_file.go).
use ftp.Telnet.{telnet_iac}
use ftp.Base.{
  length, ◌≤◌, ℕ, true, false, not, Option, none, some, [], Bytes, text, bytes_eq, is_empty,
  if◌then◌else◌, ◌≡◌, ap, ◌∙◌, none_of, contains_byte, contains_byte-Lacks, to_upper, space, is_eol,
}
use ftp.Session.State.{
  Env, Session, Outcome, done, reply, reply_error, reply_line, write, store, ◌>>=◌, with_fs,
  not_logged_in, panic, FsError, Res, ok, fail, not_exist, FileInfo,
}
use ftp.Session.File.{handle_dele, handle_rmd, handle_rnfr, handle_rnto}
use ftp.Session.Dispatch.{dispatch, run_handler, find_handler, lookup_in}
use ftp.Client.Wire.{Wire}
use ftp.Client.Served.{Peer}
use ftp.Client.Served.Sending.{IsName}
use ftp.Client.Served.Edits.{
  failure_text, none_of-IsText, answer_code, answer_text, attempt-answer, past-checks,
  reply-unlocked, reply_error-unlocked,
}

abbrev pub deleted : Bytes
deleted = text "File deleted."

abbrev pub removed : Bytes
removed = text "Directory removed."

abbrev pub renamed : Bytes
renamed = text "Requested file action successful, file renamed."

pub IsName-of :
    (name : Bytes)
    → none_of is_eol name ≡ true
    → contains_byte space name ≡ false
    → contains_byte telnet_iac name ≡ false
    → length name ≤ 4
    → to_upper name ≡ name
    → IsName name
IsName-of name t l f n u = record {
  is_text = none_of-IsText name t;
  spaceless = contains_byte-Lacks space name l;
  filtered = contains_byte-Lacks telnet_iac name f;
  fits = n;
  is_upper = u;
}

-- The reply to RNFR, by what the driver knows of the file.
abbrev pub found_code : Res FileInfo → ℕ
found_code (fail _) = 550
found_code (ok _) = 350

abbrev pub found_text : Res FileInfo → Bytes
found_text (fail _) = failure_text not_exist
found_text (ok _) = text "Requested file action pending further information."

abbrev pub found : {Ctx : Type 0} → Bytes → Res FileInfo → Session Ctx → Session Ctx
found from (fail _) s = s
found from (ok _) s = record s { rename_from = from }

module _ {Ctx : Type 0} (e : Env Ctx) (w : Wire (Peer Ctx)) where
  pub served-dele :
      (path : Bytes) (s : Session Ctx) (ctx : Ctx)
      → s.is_logged_in ≡ true
      → s.fs ≡ some ctx
      → s.mu ≡ false
      → let r = e.driver.delete_file path ctx in
        dispatch e (text "DELE") path s
        ≡ done (write (reply_line (answer_code r.1) (answer_text deleted r.1)) (store r.0 s))
  unfolding dispatch find_handler lookup_in bytes_eq text run_handler handle_dele
  served-dele path s ctx l f u =
      past-checks e w s ctx _ l f ∙ attempt-answer s deleted (e.driver.delete_file path ctx) u

  pub served-rmd :
      (path : Bytes) (s : Session Ctx) (ctx : Ctx)
      → s.is_logged_in ≡ true
      → s.fs ≡ some ctx
      → s.mu ≡ false
      → let r = e.driver.remove_dir path ctx in
        dispatch e (text "RMD") path s
        ≡ done (write (reply_line (answer_code r.1) (answer_text removed r.1)) (store r.0 s))
  unfolding dispatch find_handler lookup_in bytes_eq text run_handler handle_rmd
  served-rmd path s ctx l f u =
      past-checks e w s ctx _ l f ∙ attempt-answer s removed (e.driver.remove_dir path ctx) u

  abbrev asked : Bytes → Res FileInfo → Session Ctx → Outcome (Session Ctx)
  asked from i s = elim i [
    | fail x ↦ reply 550 (text "File not found.") s
    | ok _ ↦
        reply 350 (text "Requested file action pending further information.")
          (record s { rename_from = from })
  ]

  asked-found :
      (from : Bytes) (i : Res FileInfo) (s : Session Ctx)
      → s.mu ≡ false
      → asked from i s ≡ done (write (reply_line (found_code i) (found_text i)) (found from i s))
  asked-found from (fail x) s u = reply-unlocked s 550 _ u
  asked-found from (ok f) s u = reply-unlocked (record s { rename_from = from }) 350 _ u

  pub served-rnfr :
      (from : Bytes) (s : Session Ctx) (ctx : Ctx)
      → s.is_logged_in ≡ true
      → s.fs ≡ some ctx
      → s.mu ≡ false
      → let i = e.driver.get_file_info from ctx in
        dispatch e (text "RNFR") from s
        ≡ done (write (reply_line (found_code i) (found_text i)) (found from i s))
  unfolding dispatch find_handler lookup_in bytes_eq text run_handler handle_rnfr
  served-rnfr from s ctx l f u =
      past-checks e w s ctx (λ c. asked from (e.driver.get_file_info from c) s) l f
      ∙ asked-found from (e.driver.get_file_info from ctx) s u

  abbrev forget_name : Session Ctx → Outcome (Session Ctx)
  forget_name t = done (record t { rename_from = [] })

  abbrev out_of_order : Session Ctx → Outcome (Session Ctx)
  out_of_order s = reply 503 (text "Bad sequence of commands. Send RNFR first.") s

  abbrev moved : Ctx × Option FsError → Session Ctx → Outcome (Session Ctx)
  moved r s = elim r.1 [
    | some x ↦ reply_error x (store r.0 s) >>= forget_name
    | none ↦ reply 250 renamed (record s { fs = some r.0; rename_from = [] })
  ]

  abbrev in_order : Bytes → Bytes → Session Ctx → Outcome (Session Ctx)
  in_order from to s =
      if is_empty from then out_of_order s else with_fs s (λ c. moved (e.driver.rename from to c) s)

  moved-answer :
      (r : Ctx × Option FsError) (s : Session Ctx)
      → s.mu ≡ false
      → moved r s
        ≡ done (
            write
              (reply_line (answer_code r.1) (answer_text renamed r.1))
              (record s { fs = some r.0; rename_from = [] }))
  moved-answer (ctx, none) s u =
      reply-unlocked (record s { fs = some ctx; rename_from = [] }) 250 renamed u
  moved-answer (ctx, some x) s u =
      ap (λ (o : Outcome (Session Ctx)). o >>= forget_name) (reply_error-unlocked (store ctx s) x u)

  -- RNTO after RNFR: `s` is the session before it.
  pub served-rnto :
      (from to : Bytes) (s : Session Ctx) (ctx : Ctx)
      → s.rename_from ≡ from
      → is_empty from ≡ false
      → s.is_logged_in ≡ true
      → s.fs ≡ some ctx
      → s.mu ≡ false
      → let r = e.driver.rename from to ctx in
        dispatch e (text "RNTO") to s
        ≡ done (
            write
              (reply_line (answer_code r.1) (answer_text renamed r.1))
              (record s { fs = some r.0; rename_from = [] }))
  unfolding dispatch find_handler lookup_in bytes_eq text run_handler handle_rnto
  served-rnto from to s ctx h n l f u =
      ap (λ b. if not b then not_logged_in s else in_order s.rename_from to s) l
      ∙ ap (λ name. in_order name to s) h
      ∙ ap (λ b. if b then out_of_order s else with_fs s (λ c. moved (e.driver.rename from to c) s))
          n
      ∙ ap (λ o. elim o [ none ↦ panic | some c ↦ moved (e.driver.rename from to c) s ]) f
      ∙ moved-answer (e.driver.rename from to ctx) s u
