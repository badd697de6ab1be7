-- ===== src/Session/Contract/Commands.antt =====
-- `handleCommand` of server/session.go as a whole: which commands keep the contract, and the ones
-- that do not.
use ftp.Base.{
  some, List, [], ◌∷◌, ◌≡◌, ◌≢◌, inl, inr, refl, sym, ◌∙◌, arith, Bytes, text, bytes_eq,
  bytes_eq_iff, trim_right, is_eol, Bool-cases, Option-cases, All,
}
use ftp.Session.State.{
  Env, Session, Verb, cwd, cdup, pwd, list, nlst, mkd, rmd, dele, rnfr, rnto, retr, stor, appe,
  stou, type_cmd, port, pasv, epsv, eprt, rest, size, mdtm, feat, opts, mlsd, mlst, auth, prot_cmd,
  pbsz, acct, mode_cmd, stru, syst, stat, help, site, host_cmd, hash, mfmt, abor,
}
use ftp.Session.Dispatch.{
  command_handlers, lookup_in, find_handler, parse_line, run_handler, dispatch, guarded,
  handle_command,
}
use ftp.Session.Contract.{Inv, Serves}
use ftp.Session.Contract.Files
use ftp.Session.Contract.Transfers
use ftp.Session.Contract.Answers

-- The command of a line, in upper case.
abbrev pub command_name : Bytes → Bytes
command_name line = (parse_line (trim_right is_eol line)).0

abbrev pub command_arg : Bytes → Bytes
command_arg line = (parse_line (trim_right is_eol line)).1

abbrev pub IsBlank : Bytes → Type 0
IsBlank line = trim_right is_eol line ≡ []

-- Only the key of an entry leads to its handler.
abbrev KeyOf : Verb → Bytes → Bytes × Verb → Type 0
KeyOf v key entry = entry.1 ≡ v → entry.0 ≡ key

lookup_in-KeyOf :
    (v : Verb) (key : Bytes) (table : List (Bytes × Verb)) (name : Bytes)
    → All (KeyOf v key) table
    → lookup_in table name ≡ some v
    → name ≡ key
unfolding lookup_in
lookup_in-KeyOf v key [] name h e = cc
lookup_in-KeyOf v key ((k, w) ∷ table) name h e = elim (Bool-cases (bytes_eq k name)) [
  | inl same ↦ sym ((bytes_eq_iff k name).0 same) ∙ h.0 (ground arith)
  | inr other ↦ lookup_in-KeyOf v key table name h.1 (ground arith)
]

abor_key : All (KeyOf abor (text "ABOR")) command_handlers
abor_key = ground arith

site_key : All (KeyOf site (text "SITE")) command_handlers
site_key = ground arith

module _ {Ctx : Type 0} (e : Env Ctx) (s : Session Ctx) (i : Inv s) where
  run_handler-Serves :
      (v : Verb) → v ≢ abor → v ≢ site → (arg : Bytes) → Serves e s (run_handler e v arg s)
  unfolding run_handler
  run_handler-Serves cwd _ _ = Files.handle_cwd-Serves e s i
  run_handler-Serves cdup _ _ = λ _. Files.handle_cwd-Serves e s i (text "..")
  run_handler-Serves pwd _ _ = λ _. Files.handle_pwd-Serves e s i
  run_handler-Serves list _ _ = Files.handle_list-Serves e s i
  run_handler-Serves nlst _ _ = Files.handle_nlst-Serves e s i
  run_handler-Serves mkd _ _ = Files.handle_mkd-Serves e s i
  run_handler-Serves rmd _ _ = Files.handle_rmd-Serves e s i
  run_handler-Serves dele _ _ = Files.handle_dele-Serves e s i
  run_handler-Serves rnfr _ _ = Files.handle_rnfr-Serves e s i
  run_handler-Serves rnto _ _ = Files.handle_rnto-Serves e s i
  run_handler-Serves retr _ _ = Transfers.handle_retr-Serves e s i
  run_handler-Serves stor _ _ = Transfers.handle_stor-Serves e s i
  run_handler-Serves appe _ _ = Transfers.handle_appe-Serves e s i
  run_handler-Serves stou _ _ = λ _. Transfers.handle_stou-Serves e s i
  run_handler-Serves type_cmd _ _ = Transfers.handle_type-Serves e s i
  run_handler-Serves port _ _ = Transfers.handle_port-Serves e s i
  run_handler-Serves pasv _ _ = λ _. Transfers.handle_pasv-Serves e s i
  run_handler-Serves epsv _ _ = λ _. Transfers.handle_epsv-Serves e s i
  run_handler-Serves eprt _ _ = Transfers.handle_eprt-Serves e s i
  run_handler-Serves rest _ _ = Transfers.handle_rest-Serves e s i
  run_handler-Serves size _ _ = Answers.handle_size-Serves e s i
  run_handler-Serves mdtm _ _ = Answers.handle_mdtm-Serves e s i
  run_handler-Serves feat _ _ = λ _. Answers.handle_feat-Serves e s i
  run_handler-Serves opts _ _ = Answers.handle_opts-Serves e s i
  run_handler-Serves mlsd _ _ = Answers.handle_mlsd-Serves e s i
  run_handler-Serves mlst _ _ = Answers.handle_mlst-Serves e s i
  run_handler-Serves auth _ _ = Answers.handle_auth-Serves e s i
  run_handler-Serves prot_cmd _ _ = Answers.handle_prot-Serves e s i
  run_handler-Serves pbsz _ _ = λ _. Answers.handle_pbsz-Serves e s i
  run_handler-Serves acct _ _ = λ _. Answers.handle_acct-Serves e s i
  run_handler-Serves mode_cmd _ _ = Answers.handle_mode-Serves e s i
  run_handler-Serves stru _ _ = Answers.handle_stru-Serves e s i
  run_handler-Serves syst _ _ = λ _. Answers.handle_syst-Serves e s i
  run_handler-Serves stat _ _ = Answers.handle_stat-Serves e s i
  run_handler-Serves help _ _ = Answers.handle_help-Serves e s i
  run_handler-Serves site _ n = absurd (n refl)
  run_handler-Serves host_cmd _ _ = Answers.handle_host-Serves e s i
  run_handler-Serves hash _ _ = Answers.handle_hash-Serves e s i
  run_handler-Serves mfmt _ _ = Answers.handle_mfmt-Serves e s i
  run_handler-Serves abor n _ = absurd (n refl)

  table-Serves :
      (name arg : Bytes) (v : Verb)
      → find_handler name ≡ some v
      → name ≢ text "ABOR"
      → name ≢ text "SITE"
      → Serves e s (run_handler e v arg s)
  unfolding find_handler
  table-Serves name arg v h na ns =
      run_handler-Serves v
        (λ q. na (lookup_in-KeyOf abor _ command_handlers name abor_key (h ∙ rw q)))
        (λ q. ns (lookup_in-KeyOf site _ command_handlers name site_key (h ∙ rw q))) arg

  pub dispatch-Serves :
      (name arg : Bytes)
      → name ≢ text "PASS"
      → name ≢ text "ABOR"
      → name ≢ text "SITE"
      → Serves e s (dispatch e name arg s)
  unfolding dispatch
  dispatch-Serves name arg np na ns = elim (Option-cases (find_handler name)) [
    | inl h ↦ ground (arith, Answers.handle_user-Serves e s i arg, bytes_eq_iff name (text "PASS"))
    | inr (v, h) ↦ ground (
      arith,
      Answers.handle_user-Serves e s i arg,
      bytes_eq_iff name (text "PASS"),
      table-Serves name arg v h na ns,
    )
  ]

  guarded-Serves :
      (name arg : Bytes)
      → name ≢ text "PASS"
      → name ≢ text "ABOR"
      → name ≢ text "SITE"
      → Serves e s (guarded e name arg s)
  unfolding guarded
  guarded-Serves name arg np na ns = ground (arith, dispatch-Serves name arg np na ns)

  -- A line that is not blank and whose command is none of PASS, ABOR and SITE is served, from any
  -- session in a regular state: the handler ends, neither panics nor waits for its own lock, and the
  -- state after it is regular. One final reply more is written or owed by a transfer's goroutine than
  -- before. The address for active mode is the old one, is cleared, or is one that passed
  -- `validateActiveIP`; the path of RNFR is the old one, is cleared, or exists for the session's
  -- driver. The login is unchanged, and before a login the driver's context is not touched.
  pub handle_command-Serves :
      (line : Bytes)
      → ¬ IsBlank line
      → command_name line ≢ text "PASS"
      → command_name line ≢ text "ABOR"
      → command_name line ≢ text "SITE"
      → Serves e s (handle_command e line s)
  unfolding handle_command
  handle_command-Serves line nb np na ns =
      ground (arith, guarded-Serves (command_name line) (command_arg line) np na ns)
