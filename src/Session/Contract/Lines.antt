-- ===== src/Session/Contract/Lines.antt =====
-- `handleCommand` of server/session.go for every line, PASS, SITE and ABOR included: what holds
-- whenever it returns.
use ftp.Base.{
  leb, ℕ, ◌+◌, true, false, some, [], ◌≡◌, ◌≢◌, ◌⊎◌, inl, inr, refl, arith, Bytes, text, bytes_eq,
  bytes_eq_iff, Bool-cases,
}
use ftp.Session.State.{
  Res-cases, FsError, write, reply_line, Env, Session, Outcome, done, panic, deadlock, reply, fail,
  ok, finals,
}
use ftp.Session.Info.{handle_pass}
use ftp.Session.Site.{handle_site}
use ftp.Session.Dispatch.{lookup_in, find_handler, run_handler, dispatch, guarded, handle_command}
use ftp.Session.Contract.{Inv, IsPeer, Exists, Served, Serves, ServesOrPanics, owed}
use ftp.Session.Contract.Commands.{command_name, command_arg, IsBlank, dispatch-Serves}
use ftp.Session.Contract.Site.{handle_site-ServesOrPanics, dispatch-abor, abor_deadlocks}

differs : {a b : Bytes} → bytes_eq a b ≡ false → a ≢ b
differs {a} {b} h q = ground (arith, bytes_eq_iff a b)

module _ {Ctx : Type 0} (e : Env Ctx) where
  pub record SameLogin (s t : Session Ctx) : Type 0 where
    pub kept : t.is_logged_in ≡ s.is_logged_in
    pub untouched : s.is_logged_in ≡ false → t.fs ≡ s.fs

  -- The driver let the user in, by the session's user and host and the password given.
  pub record Accepted (s : Session Ctx) (name arg : Bytes) (t : Session Ctx) : Type 0 where
    pub by_pass : name ≡ text "PASS"
    pub context : Ctx
    pub granted : e.authenticate s.user arg s.host (e.net.parse_ip e.config.remote_ip) ≡ ok context
    pub served_from : t.fs ≡ some context

  pub record Handled (n : ℕ) (name arg : Bytes) (s t : Session Ctx) : Type 0 where
    pub inv : Inv t
    pub answered : finals t.out + owed t.workers ≡ finals s.out + owed s.workers + n
    pub target : (t.active_ip ≡ s.active_ip) ⊎ ((t.active_ip ≡ []) ⊎ IsPeer e t.active_ip)
    pub renaming :
        (t.rename_from ≡ s.rename_from) ⊎ ((t.rename_from ≡ []) ⊎ Exists e s t.rename_from)
    pub login : SameLogin s t ⊎ Accepted s name arg t

  abbrev pub HandledIfDone : ℕ → Bytes → Bytes → Session Ctx → Outcome (Session Ctx) → Type 0
  HandledIfDone n name arg s (done t) = Handled n name arg s t
  HandledIfDone n name arg s panic = Unit
  HandledIfDone n name arg s deadlock = Unit

  Served-Handled : (name arg : Bytes) {s t : Session Ctx} → Served e s t → Handled 1 name arg s t
  Served-Handled name arg h = record {
    inv = h.inv;
    answered = h.answered;
    target = h.target;
    renaming = h.renaming;
    login = inl (record { kept = h.login; untouched = h.untouched });
  }

  Serves-Handled :
      (name arg : Bytes) (s : Session Ctx) (o : Outcome (Session Ctx))
      → Serves e s o
      → HandledIfDone 1 name arg s o
  Serves-Handled name arg s (done t) h = Served-Handled name arg h
  Serves-Handled name arg s panic h = tt
  Serves-Handled name arg s deadlock h = tt

  ServesOrPanics-Handled :
      (name arg : Bytes) (s : Session Ctx) (o : Outcome (Session Ctx))
      → ServesOrPanics e s o
      → HandledIfDone 1 name arg s o
  ServesOrPanics-Handled name arg s (done t) h = Served-Handled name arg h
  ServesOrPanics-Handled name arg s panic h = tt
  ServesOrPanics-Handled name arg s deadlock h = tt

  dispatch-pass :
      (arg : Bytes) (s : Session Ctx) → dispatch e (text "PASS") arg s ≡ handle_pass e arg s
  unfolding dispatch bytes_eq text
  dispatch-pass arg s = refl

  dispatch-site :
      (arg : Bytes) (s : Session Ctx) → dispatch e (text "SITE") arg s ≡ handle_site e arg s
  unfolding dispatch find_handler lookup_in run_handler bytes_eq text
  dispatch-site arg s = refl

  module _ (s : Session Ctx) (i : Inv s) where
    pass_denied :
        (arg : Bytes) (x : FsError)
        → e.authenticate s.user arg s.host (e.net.parse_ip e.config.remote_ip) ≡ fail x
        → Serves e s (handle_pass e arg s)
    unfolding handle_pass
    pass_denied arg x h = ground arith

    abbrev entered : Ctx → Session Ctx
    entered c =
        write (reply_line 230 (text "User logged in, proceed."))
          (record s { fs = some c; is_logged_in = true })

    pass_result :
        (arg : Bytes) (c : Ctx)
        → e.authenticate s.user arg s.host (e.net.parse_ip e.config.remote_ip) ≡ ok c
        → handle_pass e arg s ≡ done (entered c)
    unfolding handle_pass
    pass_result arg c h = ground arith

    pass_granted :
        (arg : Bytes) (c : Ctx)
        → e.authenticate s.user arg s.host (e.net.parse_ip e.config.remote_ip) ≡ ok c
        → Handled 1 (text "PASS") arg s (entered c)
    pass_granted arg c h = record {
      inv = ground arith;
      answered = ground arith;
      target = inl refl;
      renaming = inl refl;
      login = inr (record { by_pass = refl; context = c; granted = h; served_from = refl });
    }

    handle_pass-Handled : (arg : Bytes) → HandledIfDone 1 (text "PASS") arg s (handle_pass e arg s)
    handle_pass-Handled arg =
        elim (Res-cases (e.authenticate s.user arg s.host (e.net.parse_ip e.config.remote_ip))) [
          | inl (x, h) ↦ Serves-Handled (text "PASS") arg s _ (pass_denied arg x h)
          | inr (c, h) ↦ rw (pass_result arg c h) (pass_granted arg c h)
        ]

    refused : (code : ℕ) (message : Bytes) → leb 200 code ≡ true → Serves e s (reply code message s)
    unfolding reply
    refused code message h = ground arith

    dispatch-Handled : (name arg : Bytes) → HandledIfDone 1 name arg s (dispatch e name arg s)
    dispatch-Handled name arg = elim (Bool-cases (bytes_eq name (text "PASS"))) [
      | inl p ↦ rw ((bytes_eq_iff _ _).0 p, dispatch-pass) (handle_pass-Handled arg)
      | inr np ↦ elim (Bool-cases (bytes_eq name (text "ABOR"))) [
        | inl a ↦ rw ((bytes_eq_iff _ _).0 a, dispatch-abor e s, abor_deadlocks e s) tt
        | inr na ↦ elim (Bool-cases (bytes_eq name (text "SITE"))) [
          | inl t ↦
              rw ((bytes_eq_iff _ _).0 t, dispatch-site)
                (ServesOrPanics-Handled (text "SITE") arg s _
                  (handle_site-ServesOrPanics e s i arg))
          | inr nt ↦
              Serves-Handled name arg s _
                (dispatch-Serves e s i name arg (differs np) (differs na) (differs nt))
        ]
      ]
    ]

    guarded-Handled : (name arg : Bytes) → HandledIfDone 1 name arg s (guarded e name arg s)
    unfolding guarded
    guarded-Handled name arg = ground (
      arith,
      dispatch-Handled name arg,
      Serves-Handled name arg s _
          (refused 503 (text "Transfer in progress, please ABOR or wait.") refl),
      Serves-Handled name arg s _ (refused 502 (text "Command not implemented.") refl),
    )

    -- For every line that is not blank, whatever its command: if handleCommand returns, from a
    -- session in a regular state, then the state after it is regular, one final reply more is written
    -- or owed than before, the address for active mode and the path of RNFR changed only as their
    -- checks allow, and either the login is unchanged (with the driver's context untouched before a
    -- login) or the command was PASS and the driver authenticated the session's user with its argument.
    pub handle_command-Handled :
        (line : Bytes)
        → ¬ IsBlank line
        → HandledIfDone 1 (command_name line) (command_arg line) s (handle_command e line s)
    unfolding handle_command
    handle_command-Handled line nb =
        ground (arith, guarded-Handled (command_name line) (command_arg line))

    pub handle_command-blank : (line : Bytes) → IsBlank line → handle_command e line s ≡ done s
    unfolding handle_command
    handle_command-blank line b = ground arith
