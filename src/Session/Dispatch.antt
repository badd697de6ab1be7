-- ===== src/Session/Dispatch.antt =====
-- server/session.go: `commandHandlers` and `handleCommand`.
use ftp.Base.{
  not, ◌&&◌, Option, none, some, List, [], ◌∷◌, Bytes, text, bytes_eq, is_empty, cut, space, is_eol,
  trim_right, to_upper, if◌then◌else◌,
}
use ftp.Session.State.{
  Env, Session, Outcome, done, reply, Verb, cwd, cdup, pwd, list, nlst, mkd, rmd, dele, rnfr, rnto,
  retr, stor, appe, stou, type_cmd, port, pasv, epsv, eprt, rest, size, mdtm, feat, opts, mlsd,
  mlst, auth, prot_cmd, pbsz, acct, mode_cmd, stru, syst, stat, help, site, host_cmd, hash, mfmt,
  abor,
}
use ftp.Session.File.{
  handle_pwd, handle_cwd, handle_cdup, handle_list, handle_nlst, handle_mkd, handle_rmd,
  handle_dele, handle_rnfr, handle_rnto,
}
use ftp.Session.Transfer.{
  handle_retr, handle_stor, handle_appe, handle_stou, handle_type, handle_rest, handle_abor,
}
use ftp.Session.Address.{handle_port, handle_eprt, handle_pasv, handle_epsv}
use ftp.Session.Info.{
  handle_size, handle_mdtm, handle_feat, handle_opts, handle_mlsd, handle_mlst, handle_user,
  handle_pass, handle_auth, handle_prot, handle_pbsz, handle_host, handle_hash, handle_mfmt,
}
use ftp.Session.Site.{
  handle_acct, handle_mode, handle_stru, handle_stat, handle_help, handle_syst, handle_site,
}

-- `commandHandlers`
abbrev pub command_handlers : List (Bytes × Verb)
command_handlers =
    (text "CWD", cwd)
    ∷ (text "XCWD", cwd)
    ∷ (text "CDUP", cdup)
    ∷ (text "XCUP", cdup)
    ∷ (text "UP", cdup)
    ∷ (text "PWD", pwd)
    ∷ (text "XPWD", pwd)
    ∷ (text "LIST", list)
    ∷ (text "NLST", nlst)
    ∷ (text "MKD", mkd)
    ∷ (text "XMKD", mkd)
    ∷ (text "RMD", rmd)
    ∷ (text "XRMD", rmd)
    ∷ (text "DELE", dele)
    ∷ (text "RNFR", rnfr)
    ∷ (text "RNTO", rnto)
    ∷ (text "RETR", retr)
    ∷ (text "STOR", stor)
    ∷ (text "APPE", appe)
    ∷ (text "STOU", stou)
    ∷ (text "TYPE", type_cmd)
    ∷ (text "PORT", port)
    ∷ (text "PASV", pasv)
    ∷ (text "EPSV", epsv)
    ∷ (text "EPRT", eprt)
    ∷ (text "REST", rest)
    ∷ (text "SIZE", size)
    ∷ (text "MDTM", mdtm)
    ∷ (text "FEAT", feat)
    ∷ (text "OPTS", opts)
    ∷ (text "MLSD", mlsd)
    ∷ (text "MLST", mlst)
    ∷ (text "AUTH", auth)
    ∷ (text "PROT", prot_cmd)
    ∷ (text "PBSZ", pbsz)
    ∷ (text "ACCT", acct)
    ∷ (text "MODE", mode_cmd)
    ∷ (text "STRU", stru)
    ∷ (text "SYST", syst)
    ∷ (text "STAT", stat)
    ∷ (text "HELP", help)
    ∷ (text "SITE", site)
    ∷ (text "HOST", host_cmd)
    ∷ (text "HASH", hash)
    ∷ (text "MFMT", mfmt)
    ∷ (text "ABOR", abor)
    ∷ []

unfoldable pub lookup_in : List (Bytes × Verb) → Bytes → Option Verb
lookup_in [] name = none
lookup_in ((key, verb) ∷ others) name =
    let later = lookup_in others name in if bytes_eq key name then some verb else later

unfoldable pub find_handler : Bytes → Option Verb
unfolding lookup_in
find_handler = lookup_in command_handlers

-- A line without its end, as its command in upper case and its argument.
unfoldable pub parse_line : Bytes → Bytes × Bytes
parse_line line = elim (cut space line) [
  | none ↦ (to_upper line, [])
  | some (name, arg) ↦ (to_upper name, arg)
]

module _ {Ctx : Type 0} (e : Env Ctx) where
  -- The call of a handler that the table names.
  unfoldable pub run_handler : Verb → Bytes → Session Ctx → Outcome (Session Ctx)
  run_handler cwd = handle_cwd e
  run_handler cdup = λ _. handle_cdup e
  run_handler pwd = λ _. handle_pwd e
  run_handler list = handle_list e
  run_handler nlst = handle_nlst e
  run_handler mkd = handle_mkd e
  run_handler rmd = handle_rmd e
  run_handler dele = handle_dele e
  run_handler rnfr = handle_rnfr e
  run_handler rnto = handle_rnto e
  run_handler retr = handle_retr e
  run_handler stor = handle_stor e
  run_handler appe = handle_appe e
  run_handler stou = λ _. handle_stou e
  run_handler type_cmd = handle_type e
  run_handler port = handle_port e
  run_handler pasv = λ _. handle_pasv e
  run_handler epsv = λ _. handle_epsv e
  run_handler eprt = handle_eprt e
  run_handler rest = handle_rest e
  run_handler size = handle_size e
  run_handler mdtm = handle_mdtm e
  run_handler feat = λ _. handle_feat e
  run_handler opts = handle_opts e
  run_handler mlsd = handle_mlsd e
  run_handler mlst = handle_mlst e
  run_handler auth = handle_auth e
  run_handler prot_cmd = handle_prot e
  run_handler pbsz = λ _. handle_pbsz e
  run_handler acct = λ _. handle_acct
  run_handler mode_cmd = handle_mode
  run_handler stru = handle_stru
  run_handler syst = λ _. handle_syst e
  run_handler stat = handle_stat
  run_handler help = handle_help
  run_handler site = handle_site e
  run_handler host_cmd = handle_host e
  run_handler hash = handle_hash e
  run_handler mfmt = handle_mfmt e
  run_handler abor = λ _. handle_abor

  -- The commands that are handled outside the table, and then the table.
  unfoldable pub dispatch : Bytes → Bytes → Session Ctx → Outcome (Session Ctx)
  unfolding reply
  dispatch name arg s =
      if bytes_eq name (text "USER")
      then handle_user e arg s
      else if bytes_eq name (text "PASS")
      then handle_pass e arg s
      else if bytes_eq name (text "QUIT")
      then reply 221 (text "Service closing control connection.") s
      else if bytes_eq name (text "NOOP")
      then reply 200 (text "OK.") s
      else (elim (find_handler name) [
        | some verb ↦ run_handler verb arg s
        | none ↦ reply 502 (text "Command not implemented.") s
      ])

  -- The checks before a command is dispatched.
  unfoldable pub guarded : Bytes → Bytes → Session Ctx → Outcome (Session Ctx)
  unfolding reply
  guarded name arg s =
      if s.busy && (not (bytes_eq name (text "ABOR")) && not (bytes_eq name (text "STAT")))
      then reply 503 (text "Transfer in progress, please ABOR or wait.") s
      else if e.config.disabled_commands name
      then reply 502 (text "Command not implemented.") s
      else dispatch name arg s

  unfoldable pub handle_command : Bytes → Session Ctx → Outcome (Session Ctx)
  unfolding reply
  handle_command line s =
      let trimmed = trim_right is_eol line in
      let parsed = parse_line trimmed in
      if is_empty trimmed then done s else guarded parsed.0 parsed.1 s
