-- ===== src/Session/Run/Safety.antt =====
-- Sessions of server/session.go that neither crash nor hang.
use ftp.Base.{List, [], ◌∷◌, ◌≡◌, ◌≢◌, inl, inr, refl, text, All, trim_right, is_eol}
use ftp.Session.State.{Env, Session, Outcome, done, panic, deadlock}
use ftp.Session.Worker.{Event, line, work, session_step, run}
use ftp.Session.Contract.{Inv, Serves}
use ftp.Session.Contract.Commands.{command_name, handle_command-Serves}
use ftp.Session.Contract.Lines.{handle_command-blank}
use ftp.Session.Run.{Bytes-cases, worker_step-Moves, Moves}

module _ {Ctx : Type 0} where
  -- The line is no PASS, ABOR or SITE.
  abbrev pub IsPlain : Event Ctx → Type 0
  IsPlain (line _ l) =
      (command_name l ≢ text "PASS")
      × (command_name l ≢ text "ABOR")
      × (command_name l ≢ text "SITE")
  IsPlain (work _ _) = Unit

  record Alive (o : Outcome (Session Ctx)) : Type 0 where
    state : Session Ctx
    inv : Inv state
    ends : o ≡ done state

  Serves-Alive :
      (e : Env Ctx) (s : Session Ctx) (o : Outcome (Session Ctx)) → Serves e s o → Alive o
  Serves-Alive e s (done t) h = record { state = t; inv = h.inv; ends = refl }
  Serves-Alive e s panic h = absurd h
  Serves-Alive e s deadlock h = absurd h

  Moves-Alive : (s : Session Ctx) (o : Outcome (Session Ctx)) → Moves s o → Alive o
  Moves-Alive s (done t) h = record { state = t; inv = h.inv; ends = refl }
  Moves-Alive s panic h = absurd h
  Moves-Alive s deadlock h = absurd h

  step-Alive : (v : Event Ctx) (s : Session Ctx) → Inv s → IsPlain v → Alive (session_step v s)
  unfolding session_step
  step-Alive (work n failed) s i p = Moves-Alive s _ (worker_step-Moves n failed s i)
  step-Alive (line e l) s i (np, na, ns) = elim (Bytes-cases (trim_right is_eol l)) [
    | inl b ↦ record { state = s; inv = i; ends = handle_command-blank e s i l b }
    | inr nb ↦ Serves-Alive e s _ (handle_command-Serves e s i l nb np na ns)
  ]

  -- From a session in a regular state, any sequence of lines that are no PASS, ABOR or SITE command,
  -- and of steps of the transfers' goroutines, ends, and in a regular state.
  pub session_survives :
      (vs : List (Event Ctx)) (s : Session Ctx)
      → Inv s
      → All IsPlain vs
      → (t : Session Ctx) × Inv t × (run vs s ≡ done t)
  unfolding run
  session_survives [] s i p = (s, i, refl)
  session_survives (v ∷ vs) s i p =
      let a = step-Alive v s i p.0 in
      let (t, j, e) = session_survives vs a.state a.inv p.1 in (t, j, rw (a.ends) e)
