-- ===== src/Session/Keep/Sessions.antt =====
-- Whole sessions of server/session.go keep what the driver keeps.
use ftp.Base.{ℕ, Bool, Option, List, [], ◌∷◌, ◌≡◌, inl, inr, arith, Bytes, text, Option-cases, All}
use ftp.Session.State.{
  Env, Ip, Res-cases, ok, Session, done, Verb, cwd, cdup, pwd, list, nlst, mkd, rmd, dele, rnfr,
  rnto, retr, stor, appe, stou, type_cmd, port, pasv, epsv, eprt, rest, size, mdtm, feat, opts,
  mlsd, mlst, auth, prot_cmd, pbsz, acct, mode_cmd, stru, syst, stat, help, site, host_cmd, hash,
  mfmt, abor,
}
use ftp.Session.Info.{handle_pass}
use ftp.Session.Dispatch.{find_handler, run_handler, dispatch, guarded, handle_command}
use ftp.Session.Worker.{act, worker_step, Event, line, work, session_step, run}
use ftp.Session.Contract.Site.{abor_deadlocks}
use ftp.Session.Contract.Commands.{command_name, command_arg}
use ftp.Session.Run.{>>=-eq-done}
use ftp.Session.Keep.{Preserves, Holds, Keeps}
use ftp.Session.Keep.Files
use ftp.Session.Keep.Transfers
use ftp.Session.Keep.Answers

module _ {Ctx : Type 0} (e : Env Ctx) (P : Ctx → Type 0) (p : Preserves e.driver P)
    (s : Session Ctx) (h : Holds P s.fs) where
  run_handler-Keeps : (v : Verb) → (arg : Bytes) → Keeps P (run_handler e v arg s)
  unfolding run_handler
  run_handler-Keeps cwd = Files.handle_cwd-Keeps e P p s h
  run_handler-Keeps cdup = λ _. Files.handle_cwd-Keeps e P p s h (text "..")
  run_handler-Keeps pwd = λ _. Files.handle_pwd-Keeps e P p s h
  run_handler-Keeps list = Files.handle_list-Keeps e P p s h
  run_handler-Keeps nlst = Files.handle_nlst-Keeps e P p s h
  run_handler-Keeps mkd = Files.handle_mkd-Keeps e P p s h
  run_handler-Keeps rmd = Files.handle_rmd-Keeps e P p s h
  run_handler-Keeps dele = Files.handle_dele-Keeps e P p s h
  run_handler-Keeps rnfr = Files.handle_rnfr-Keeps e P p s h
  run_handler-Keeps rnto = Files.handle_rnto-Keeps e P p s h
  run_handler-Keeps retr = Transfers.handle_retr-Keeps e P p s h
  run_handler-Keeps stor = Transfers.handle_stor-Keeps e P p s h
  run_handler-Keeps appe = Transfers.handle_appe-Keeps e P p s h
  run_handler-Keeps stou = λ _. Transfers.handle_stou-Keeps e P p s h
  run_handler-Keeps type_cmd = Transfers.handle_type-Keeps e P p s h
  run_handler-Keeps port = Transfers.handle_port-Keeps e P p s h
  run_handler-Keeps pasv = λ _. Transfers.handle_pasv-Keeps e P p s h
  run_handler-Keeps epsv = λ _. Transfers.handle_epsv-Keeps e P p s h
  run_handler-Keeps eprt = Transfers.handle_eprt-Keeps e P p s h
  run_handler-Keeps rest = Transfers.handle_rest-Keeps e P p s h
  run_handler-Keeps size = Answers.handle_size-Keeps e P p s h
  run_handler-Keeps mdtm = Answers.handle_mdtm-Keeps e P p s h
  run_handler-Keeps feat = λ _. Answers.handle_feat-Keeps e P p s h
  run_handler-Keeps opts = Answers.handle_opts-Keeps e P p s h
  run_handler-Keeps mlsd = Answers.handle_mlsd-Keeps e P p s h
  run_handler-Keeps mlst = Answers.handle_mlst-Keeps e P p s h
  run_handler-Keeps auth = Answers.handle_auth-Keeps e P p s h
  run_handler-Keeps prot_cmd = Answers.handle_prot-Keeps e P p s h
  run_handler-Keeps pbsz = λ _. Answers.handle_pbsz-Keeps e P p s h
  run_handler-Keeps acct = λ _. Answers.handle_acct-Keeps e P p s h
  run_handler-Keeps mode_cmd = Answers.handle_mode-Keeps e P p s h
  run_handler-Keeps stru = Answers.handle_stru-Keeps e P p s h
  run_handler-Keeps syst = λ _. Answers.handle_syst-Keeps e P p s h
  run_handler-Keeps stat = Answers.handle_stat-Keeps e P p s h
  run_handler-Keeps help = Answers.handle_help-Keeps e P p s h
  run_handler-Keeps site = Answers.handle_site-Keeps e P p s h
  run_handler-Keeps host_cmd = Answers.handle_host-Keeps e P p s h
  run_handler-Keeps hash = Answers.handle_hash-Keeps e P p s h
  run_handler-Keeps mfmt = Answers.handle_mfmt-Keeps e P p s h
  run_handler-Keeps abor = λ _. rw (abor_deadlocks e s) tt

  module _
      (granted : (user pass host : Bytes) (ip : Option Ip) (c : Ctx)
        → e.authenticate user pass host ip ≡ ok c
        → P c) where
    handle_pass-Keeps : (pass : Bytes) → Keeps P (handle_pass e pass s)
    unfolding handle_pass
    handle_pass-Keeps pass =
        elim (Res-cases (e.authenticate s.user pass s.host (e.net.parse_ip e.config.remote_ip))) [
          | inl (x, f) ↦ ground arith
          | inr (c, f) ↦
              ground (arith, granted s.user pass s.host (e.net.parse_ip e.config.remote_ip) c f)
        ]

    dispatch-Keeps : (name arg : Bytes) → Keeps P (dispatch e name arg s)
    unfolding dispatch
    dispatch-Keeps name arg = elim (Option-cases (find_handler name)) [
      | inl n ↦ ground (arith, handle_pass-Keeps arg, Answers.handle_user-Keeps e P p s h arg)
      | inr (v, n) ↦ ground (
        arith,
        handle_pass-Keeps arg,
        Answers.handle_user-Keeps e P p s h arg,
        run_handler-Keeps v arg,
      )
    ]

    guarded-Keeps : (name arg : Bytes) → Keeps P (guarded e name arg s)
    unfolding guarded
    guarded-Keeps name arg = ground (arith, dispatch-Keeps name arg)

    handle_command-Keeps : (l : Bytes) → Keeps P (handle_command e l s)
    unfolding handle_command
    handle_command-Keeps l = ground (arith, guarded-Keeps (command_name l) (command_arg l))

module _ {Ctx : Type 0} (P : Ctx → Type 0) where
  -- What a session meets respects `P`: its driver keeps it, and its logins give contexts that have it.
  abbrev pub Respects : Event Ctx → Type 0
  Respects (line e _) =
      Preserves e.driver P
      × ((user pass host : Bytes) (ip : Option Ip) (c : Ctx)
          → e.authenticate user pass host ip ≡ ok c
          → P c)
  Respects (work _ _) = Unit

  worker_step-Keeps :
      (n : ℕ) (failed : Bool) (s : Session Ctx) → Holds P s.fs → Keeps P (worker_step n failed s)
  unfolding worker_step act
  worker_step-Keeps n failed s h = ground arith

  step-Keeps :
      (v : Event Ctx) (s : Session Ctx) → Respects v → Holds P s.fs → Keeps P (session_step v s)
  unfolding session_step
  step-Keeps (line e l) s r h = handle_command-Keeps e P r.0 s h r.1 l
  step-Keeps (work n failed) s r h = worker_step-Keeps n failed s h

  -- A property of contexts that every method of the drivers keeps and every login grants: after any
  -- sequence of lines and of steps of the transfers' goroutines that neither panics nor hangs, from a
  -- session whose context, if it has one, has the property, the same holds.
  pub session_keeps :
      (vs : List (Event Ctx)) (s t : Session Ctx)
      → All Respects vs
      → Holds P s.fs
      → run vs s ≡ done t
      → Holds P t.fs
  unfolding run
  session_keeps [] s t r h e = ground arith
  session_keeps (v ∷ vs) s t r h e =
      let (u, first, later) = >>=-eq-done (session_step v s) (run vs) e in
      session_keeps vs u t r.1 (rw first at (step-Keeps v s r.0 h)) later
