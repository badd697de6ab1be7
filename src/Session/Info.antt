-- ===== src/Session/Info.antt =====
-- server/session_info.go, session_access.go, session_security.go, session_extensions.go:
-- the commands that answer from the session or ask for one file.
use ftp.Base.{
  Bool, true, not, ◌||◌, Option, none, some, List, [], ◌∷◌, ◌++◌, map, Bytes, text, bytes_eq,
  has_prefix, split, cut, to_upper, space, cr, lf, if◌then◌else◌, show_nat,
}
use ftp.Session.State.{
  ok, fail, FileInfo, Env, clear, private, reply_line, cont_line, raw_line, Session, Outcome, done,
  ◌>>=◌, write, write_all, reply, reply_error, with_fs, attempt, not_logged_in,
}
use ftp.Session.File.{conn_data, send_lines}

-- `writeMLEntry`, without the line end
unfoldable pub ml_entry : FileInfo → Bytes
ml_entry f =
    text "type="
    ++ ((if f.is_dir then text "dir" else text "file")
        ++ (text ";size="
            ++ (show_nat f.size ++ (text ";modify=" ++ (f.mod_time ++ (text "; " ++ f.name))))))

abbrev base_features : List Bytes
base_features =
    text "SIZE"
    ∷ text "MDTM"
    ∷ text "PASV"
    ∷ text "EPSV"
    ∷ text "EPRT"
    ∷ text "UTF8"
    ∷ text "TVFS"
    ∷ text "MLST"
    ∷ text "MLST type*;size*;modify*;"
    ∷ text "REST STREAM"
    ∷ text "HOST"
    ∷ text "HASH SHA-1;SHA-256;SHA-512;MD5;CRC32"
    ∷ text "MFMT"
    ∷ []

-- The algorithms of OPTS HASH.
unfoldable pub is_hash_name : Bytes → Bool
is_hash_name algo =
    bytes_eq algo (text "SHA-1")
    || (bytes_eq algo (text "SHA-256")
        || (bytes_eq algo (text "SHA-512")
            || (bytes_eq algo (text "MD5") || bytes_eq algo (text "CRC32"))))

-- The algorithm that the second word of OPTS HASH names.
unfoldable pub opts_hash : List Bytes → Option Bytes
unfolding is_hash_name
opts_hash (_ ∷ algo ∷ _) = if is_hash_name (to_upper algo) then some (to_upper algo) else none
opts_hash _ = none

module _ {Ctx : Type 0} (e : Env Ctx) where
  unfoldable pub handle_size : Bytes → Session Ctx → Outcome (Session Ctx)
  unfolding reply
  handle_size path s =
      if not s.is_logged_in
      then not_logged_in s
      else with_fs s (λ c. elim (e.driver.get_file_info path c) [
        | fail x ↦ reply 550 (text "Could not get file size.") s
        | ok info ↦ reply 213 (show_nat info.size) s
      ])

  unfoldable pub handle_mdtm : Bytes → Session Ctx → Outcome (Session Ctx)
  unfolding reply
  handle_mdtm path s =
      if not s.is_logged_in
      then not_logged_in s
      else with_fs s (λ c. elim (e.driver.get_file_info path c) [
        | fail x ↦ reply 550 (text "Could not get file modification time.") s
        | ok info ↦ reply 213 info.mod_time s
      ])

  abbrev features : List Bytes
  features =
      base_features
      ++ ((if e.config.disable_mlsd then [] else text "MLSD" ∷ [])
          ++ (if e.config.tls then text "AUTH TLS" ∷ text "PBSZ" ∷ text "PROT" ∷ [] else []))

  -- Writing does not fail here.
  unfoldable pub handle_feat : Session Ctx → Outcome (Session Ctx)
  handle_feat s = done (
      write (reply_line 211 (text "End"))
        (write_all (map raw_line features) (write (cont_line 211 (text "Features:")) s)))

  unfoldable pub handle_opts : Bytes → Session Ctx → Outcome (Session Ctx)
  unfolding reply
  handle_opts arg s =
      if has_prefix (to_upper arg) (text "UTF8 ON")
      then reply 200 (text "Always in UTF8 mode.") s
      else if has_prefix (to_upper arg) (text "HASH")
      then (elim (opts_hash (split space arg)) [
        | some algo ↦ reply 200 (algo ++ text " selected.") (record s { selected_hash = algo })
        | none ↦ reply 501 (text "Option not understood.") s
      ])
      else reply 501 (text "Option not understood.") s

  unfoldable pub handle_mlsd : Bytes → Session Ctx → Outcome (Session Ctx)
  unfolding reply reply_error conn_data
  handle_mlsd path s =
      if e.config.disable_mlsd
      then reply 502 (text "Command not implemented.") s
      else if not s.is_logged_in
      then not_logged_in s
      else with_fs s (λ c. elim (e.driver.list_dir path c) [
        | fail x ↦ reply_error x s
        | ok entries ↦
            send_lines e (text "MLSD listing started.") (text "MLSD listing complete.")
              (map (λ f. ml_entry f ++ (cr ∷ lf ∷ [])) entries) s
      ])

  unfoldable pub handle_mlst : Bytes → Session Ctx → Outcome (Session Ctx)
  unfolding reply
  handle_mlst path s =
      if not s.is_logged_in
      then not_logged_in s
      else with_fs s (λ c. elim (e.driver.get_file_info path c) [
        | fail x ↦ reply 550 (text "Could not get file info.") s
        | ok info ↦ done (
            write (reply_line 250 (text "End")) (
              write (raw_line (ml_entry info)) (write (cont_line 250 (text " Listing follows")) s)))
      ])

  unfoldable pub handle_user : Bytes → Session Ctx → Outcome (Session Ctx)
  unfolding reply
  handle_user user s = reply 331 (text "User name okay, need password.") (record s { user = user })

  unfoldable pub handle_pass : Bytes → Session Ctx → Outcome (Session Ctx)
  unfolding reply
  handle_pass pass s =
      elim (e.authenticate s.user pass s.host (e.net.parse_ip e.config.remote_ip)) [
        | fail x ↦ reply 530 (text "Login incorrect.") s
        | ok c ↦
            reply 230 (text "User logged in, proceed.")
              (record s { fs = some c; is_logged_in = true })
      ]

  unfoldable pub handle_auth : Bytes → Session Ctx → Outcome (Session Ctx)
  unfolding reply
  handle_auth arg s =
      if not e.config.tls
      then reply 502 (text "TLS not configured.") s
      else if not (bytes_eq (to_upper arg) (text "TLS"))
      then reply 504 (text "Only AUTH TLS is supported.") s
      else do t ← reply 234 (text "AUTH TLS successful.") s; done (record t { upgraded = true })

  unfoldable pub handle_prot : Bytes → Session Ctx → Outcome (Session Ctx)
  unfolding reply
  handle_prot arg s =
      if not e.config.tls
      then reply 502 (text "TLS not configured.") s
      else if bytes_eq (to_upper arg) (text "P")
      then reply 200 (text "PROT P OK.") (record s { prot = private })
      else if bytes_eq (to_upper arg) (text "C")
      then reply 200 (text "PROT C OK.") (record s { prot = clear })
      else reply 504 (text "PROT not implemented.") s

  unfoldable pub handle_pbsz : Session Ctx → Outcome (Session Ctx)
  unfolding reply
  handle_pbsz s =
      if not e.config.tls
      then reply 502 (text "TLS not configured.") s
      else reply 200 (text "PBSZ=0") s

  unfoldable pub handle_host : Bytes → Session Ctx → Outcome (Session Ctx)
  unfolding reply
  handle_host arg s =
      if s.is_logged_in
      then reply 503 (text "Cannot change host after login.") s
      else reply 220 (text "Host accepted.") (record s { host = arg })

  unfoldable pub handle_hash : Bytes → Session Ctx → Outcome (Session Ctx)
  unfolding reply reply_error
  handle_hash path s =
      if not s.is_logged_in
      then not_logged_in s
      else with_fs s (λ c. elim (e.driver.get_hash path s.selected_hash c) [
        | fail x ↦ reply_error x s
        | ok hash ↦ reply 213 (s.selected_hash ++ (text " " ++ (hash ++ (text " " ++ path)))) s
      ])

  unfoldable pub handle_mfmt : Bytes → Session Ctx → Outcome (Session Ctx)
  unfolding reply reply_error
  handle_mfmt arg s = if not s.is_logged_in then not_logged_in s else (elim (cut space arg) [
    | none ↦ reply 501 (text "Syntax error in parameters or arguments.") s
    | some (time, path) ↦
        if not (e.net.is_timestamp time)
        then reply 501 (text "Invalid time format.") s
        else with_fs s (λ c.
          attempt (e.driver.set_time path time c) s
            (reply 213 (text "Modify=" ++ (time ++ (text "; " ++ path)))))
  ])
