-- ===== src/Session/Site.antt =====
-- server/session_compliance.go: the commands of RFC 1123, and SITE.
use ftp.Base.{
  ◌-◌, ◌^◌, not, none, some, List, [], ◌∷◌, ◌++◌, Bytes, text, bytes_eq, is_empty, join, fields,
  to_upper, trim_space, if◌then◌else◌, leb, parse_uint, show_nat,
}
use ftp.Session.State.{
  Env, Out, reply_line, cont_line, raw_line, Session, Outcome, panic, done, write, write_all, reply,
  reply_error, with_fs, attempt,
}

abbrev help_lines : List Out
help_lines =
    cont_line 214 (text "The following commands are supported:")
    ∷ raw_line (text "USER PASS QUIT ACCT")
    ∷ raw_line (text "CWD XCWD CDUP XCUP PWD XPWD MKD XMKD RMD XRMD")
    ∷ raw_line (text "LIST NLST MLSD MLST")
    ∷ raw_line (text "RETR STOR APPE STOU DELE")
    ∷ raw_line (text "RNFR RNTO REST")
    ∷ raw_line (text "TYPE MODE STRU PORT PASV EPSV EPRT")
    ∷ raw_line (text "SIZE MDTM FEAT OPTS")
    ∷ raw_line (text "AUTH PROT PBSZ")
    ∷ raw_line (text "SYST STAT HELP NOOP SITE")
    ∷ raw_line (text "HOST HASH")
    ∷ reply_line 214 (text "End of help")
    ∷ []

module _ {Ctx : Type 0} where
  unfoldable pub handle_acct : Session Ctx → Outcome (Session Ctx)
  unfolding reply
  handle_acct = reply 202 (text "Command not implemented, superfluous at this site.")

  unfoldable pub handle_mode : Bytes → Session Ctx → Outcome (Session Ctx)
  unfolding reply
  handle_mode arg s =
      let mode = to_upper (trim_space arg) in
      if bytes_eq mode (text "S")
      then reply 200 (text "Mode set to Stream.") s
      else if bytes_eq mode (text "B")
      then reply 504 (text "Block mode not implemented.") s
      else if bytes_eq mode (text "C")
      then reply 504 (text "Compressed mode not implemented.") s
      else reply 504 (text "Command not implemented for that parameter.") s

  unfoldable pub handle_stru : Bytes → Session Ctx → Outcome (Session Ctx)
  unfolding reply
  handle_stru arg s =
      let stru = to_upper (trim_space arg) in
      if bytes_eq stru (text "F")
      then reply 200 (text "Structure set to File.") s
      else if bytes_eq stru (text "R")
      then reply 504 (text "Record structure not implemented.") s
      else if bytes_eq stru (text "P")
      then reply 504 (text "Page structure not implemented.") s
      else reply 504 (text "Command not implemented for that parameter.") s

  -- The line of STAT on how data connections are made.
  abbrev data_lines : Session Ctx → List Out
  data_lines s = elim s.pasv_list [
    | some _ ↦ raw_line (text "Passive mode enabled") ∷ []
    | none ↦
        if is_empty s.active_ip
        then []
        else raw_line
            (text "Active mode: " ++ (s.active_ip ++ (text ":" ++ show_nat s.active_port)))
          ∷ []
  ]

  unfoldable pub handle_stat : Bytes → Session Ctx → Outcome (Session Ctx)
  unfolding reply
  handle_stat arg s =
      if not (is_empty arg)
      then reply 502 (text "STAT with path not implemented. Use LIST instead.") s
      else done (
          write (reply_line 211 (text "End of status")) (
            write_all (data_lines s) (
              write
                (raw_line
                  (text "TYPE: ASCII, FORM: Nonprint; STRUcture: File; transfer MODE: Stream"))
                (write
                  (raw_line (
                    if s.is_logged_in
                    then text "Logged in as: " ++ s.user
                    else text "Not logged in"))
                  (write (cont_line 211 (text "Status:")) s)))))

  unfoldable pub handle_help : Bytes → Session Ctx → Outcome (Session Ctx)
  unfolding reply
  handle_help arg s =
      if not (is_empty arg)
      then reply 214 (text "No help available for " ++ (arg ++ text ".")) s
      else done (write_all help_lines s)

module _ {Ctx : Type 0} (e : Env Ctx) where
  unfoldable pub handle_syst : Session Ctx → Outcome (Session Ctx)
  unfolding reply
  handle_syst = reply 215 e.config.server_name

  -- SITE CHMOD: the words after the first. No login is asked for.
  unfoldable pub site_chmod : List Bytes → Session Ctx → Outcome (Session Ctx)
  unfolding reply reply_error
  site_chmod (mode ∷ p ∷ path) s = elim (parse_uint 8 (2 ^ 32 - 1) mode) [
    | none ↦ reply 501 (text "Invalid mode.") s
    | some m ↦
        if not (leb m 511)
        then reply 501 (text "Invalid mode: special bits not allowed.") s
        else with_fs s (λ c.
          attempt (e.driver.chmod (join (text " ") (p ∷ path)) m c) s
            (reply 200 (text "SITE CHMOD command successful.")))
  ]
  site_chmod _ s = reply 501 (text "Syntax error in parameters or arguments.") s

  -- The words of SITE; the source takes the first without looking whether there is one.
  unfoldable pub site_words : List Bytes → Session Ctx → Outcome (Session Ctx)
  unfolding reply
  site_words [] s = panic
  site_words (word ∷ words) s =
      let command = to_upper word in
      if bytes_eq command (text "HELP")
      then reply 214 (text "Available SITE commands: HELP, CHMOD") s
      else if bytes_eq command (text "CHMOD")
      then site_chmod words s
      else reply 502 (text "SITE command not implemented.") s

  unfoldable pub handle_site : Bytes → Session Ctx → Outcome (Session Ctx)
  unfolding reply
  handle_site arg s =
      if is_empty arg
      then reply 501 (text "SITE command requires parameters.") s
      else site_words (fields arg) s
