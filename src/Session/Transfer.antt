-- ===== src/Session/Transfer.antt =====
-- server/session_transfer.go and handleABOR of server/session.go: file transfers, their goroutines,
-- and the commands that set up data connections.
use ftp.Base.{
  ◌+◌, Bool, true, false, not, ◌||◌, none, some, ◌∷◌, ◌++◌, Bytes, text, bytes_eq, to_upper,
  if◌then◌else◌, pos, is_positive, parse_int, show_int,
}
use ftp.Session.State.{
  ok, fail, File, OpenFlags, Env, Ip, ascii, image, Verb, retr, stor, appe, stou, copying, Session,
  Outcome, deadlock, done, ◌>>=◌, reply, reply_error, with_fs, store, not_logged_in, please_login,
  ip_equal,
}
use ftp.Session.File.{conn_data, with_data}

module _ {Ctx : Type 0} where
  -- `startTransfer`, then the goroutine.
  unfoldable pub start_transfer : Verb → Session Ctx → Outcome (Session Ctx)
  start_transfer command s =
      if s.mu
      then deadlock
      else done (record s {
        busy = true;
        transfer_ctx = some s.contexts;
        contexts = s.contexts + 1;
        workers = record { command = command; phase = copying; ctx = s.contexts } ∷ s.workers;
      })

  -- Cancelling the session's current context, if it has one.
  abbrev pub cancel_transfer : Session Ctx → Session Ctx
  cancel_transfer s = elim s.transfer_ctx [
    | none ↦ s
    | some i ↦ record s { cancelled = i ∷ s.cancelled }
  ]

  unfoldable pub end_transfer : Session Ctx → Outcome (Session Ctx)
  end_transfer s =
      if s.mu
      then deadlock
      else done (record (cancel_transfer s) { busy = false; transfer_ctx = none })

  -- The seek of RETR and STOR to the offset of REST.
  abbrev pub seek_restart :
      File → Session Ctx → (Session Ctx → Outcome (Session Ctx)) → Outcome (Session Ctx)
  seek_restart file s k =
      if is_positive s.restart_offset
      then (elim file.seek [
        | none ↦ do
          t ← reply 550 (text "Resume not supported for this file.") s
          done (record t { restart_offset = pos 0 })
        | some seek ↦ elim (seek s.restart_offset) [ some x ↦ reply_error x s | none ↦ k s ]
      ])
      else k s

  unfoldable pub handle_abor : Session Ctx → Outcome (Session Ctx)
  unfolding reply
  handle_abor s =
      if s.mu
      then deadlock
      else let locked = record s { mu = true } in
        let finish =
          if not s.busy
          then reply 226 (text "ABOR command successful; no transfer in progress.") locked
          else reply 226 (text "ABOR command successful; transfer aborted.")
              (cancel_transfer locked) in
        do t ← finish; done (record t { mu = false })

abbrev pub read_only : OpenFlags
read_only = record { writing = false; create = false; truncate = false; append = false }

abbrev pub write_new : OpenFlags
write_new = record { writing = true; create = true; truncate = true; append = false }

abbrev pub write_at : OpenFlags
write_at = record { writing = true; create = true; truncate = false; append = false }

abbrev pub write_end : OpenFlags
write_end = record { writing = true; create = true; truncate = false; append = true }

module _ {Ctx : Type 0} (e : Env Ctx) where
  -- OpenFile, with the rest of the handler.
  abbrev pub with_file :
      Bytes
      → OpenFlags
      → Session Ctx
      → (File → Session Ctx → Outcome (Session Ctx))
      → Outcome (Session Ctx)
  with_file path flags s k = with_fs s (λ c.
      let r = e.driver.open_file path flags c in
      elim r.1 [ fail x ↦ reply_error x (store r.0 s) | ok file ↦ k file (store r.0 s) ])

  -- The data connection is kept for ABOR, announced, and handed to a goroutine.
  abbrev pub begin : Verb → Bytes → Bool → Session Ctx → Outcome (Session Ctx)
  begin command message reset s = with_data e s (λ conn t. do
    u ← reply 150 message (record t { data_conn = some conn })
    start_transfer command
        (record u { restart_offset = if reset then pos 0 else u.restart_offset }))

  unfoldable pub handle_retr : Bytes → Session Ctx → Outcome (Session Ctx)
  unfolding reply reply_error conn_data start_transfer
  handle_retr path s =
      if not s.is_logged_in
      then not_logged_in s
      else with_file path read_only s (λ file t. seek_restart file t (λ u.
        begin retr
          (if is_positive u.restart_offset
            then text "Opening data connection for RETR (restarting at "
              ++ (show_int u.restart_offset ++ text ").")
            else text "Opening data connection for RETR.")
          true u))

  unfoldable pub handle_stor : Bytes → Session Ctx → Outcome (Session Ctx)
  unfolding reply reply_error conn_data start_transfer
  handle_stor path s =
      if not s.is_logged_in
      then not_logged_in s
      else with_file path (if is_positive s.restart_offset then write_at else write_new) s
          (λ file t.
            seek_restart file t (begin stor (text "Opening data connection for STOR.") true))

  unfoldable pub handle_appe : Bytes → Session Ctx → Outcome (Session Ctx)
  unfolding reply reply_error conn_data start_transfer
  handle_appe path s =
      if not s.is_logged_in
      then not_logged_in s
      else with_file path write_end s
          (λ file. begin appe (text "Opening data connection for APPE.") false)

  unfoldable pub handle_stou : Session Ctx → Outcome (Session Ctx)
  unfolding reply reply_error conn_data start_transfer
  handle_stou s =
      let path = text "ftp-" ++ e.net.unix_nano in
      if not s.is_logged_in
      then not_logged_in s
      else with_file path write_new s (λ file. begin stou (text "FILE: " ++ path) false)

  unfoldable pub handle_type : Bytes → Session Ctx → Outcome (Session Ctx)
  unfolding reply
  handle_type arg s =
      let up = to_upper arg in
      if not s.is_logged_in
      then please_login s
      else if bytes_eq up (text "A") || bytes_eq up (text "A N")
      then reply 200 (text "Type set to A.") (record s { transfer_type = ascii })
      else if bytes_eq up (text "I") || bytes_eq up (text "L 8")
      then reply 200 (text "Type set to I.") (record s { transfer_type = image })
      else reply 504 (text "Type not supported.") s

  unfoldable pub handle_rest : Bytes → Session Ctx → Outcome (Session Ctx)
  unfolding reply
  handle_rest arg s = elim (parse_int arg) [
    | none ↦ reply 501 (text "Invalid offset.") s
    | some offset ↦
        reply 350
          (text "Restarting at "
            ++ (show_int offset ++ text ". Send STOR or RETR to initiate transfer."))
          (record s { restart_offset = offset })
  ]

  -- `validateActiveIP`: the target is the host of the control connection.
  unfoldable pub validate_active_ip : Ip → Bool
  validate_active_ip ip = elim (e.net.parse_ip e.config.remote_addr) [
    | none ↦ false
    | some remote ↦ ip_equal ip remote
  ]
