-- ===== src/Session/Worker.antt =====
-- server/session_transfer.go: the goroutine of a transfer, in the steps at which the main loop can
-- come between, and the session as a machine that takes command lines and such steps.
use ftp.Base.{
  ℕ, zero, suc, Bool, true, false, ◌||◌, Option, none, some, List, [], ◌∷◌, Bytes, text,
  if◌then◌else◌, ◌==◌, get_elem?,
}
use ftp.Session.State.{
  Env, Verb, retr, stor, Phase, copying, ending, unwinding, Worker, Session, Outcome, done, ◌>>=◌,
  reply,
}
use ftp.Session.Transfer.{end_transfer}
use ftp.Session.Dispatch.{handle_command}

abbrev pub contains : ℕ → List ℕ → Bool
contains i [] = false
contains i (j ∷ js) = i == j || contains i js

-- RETR and STOR look at their context before the error of the copy; APPE and STOU only after one.
abbrev pub checks_first : Verb → Bool
checks_first retr = true
checks_first stor = true
checks_first _ = false

abbrev pub set_phase : Phase → Worker → Worker
set_phase p w = record w { phase = p }

-- The worker at an index is replaced, or taken away.
unfoldable pub put_worker : ℕ → Option Worker → List Worker → List Worker
put_worker i v [] = []
put_worker zero none (w ∷ ws) = ws
put_worker zero (some v) (w ∷ ws) = v ∷ ws
put_worker (suc i) v (w ∷ ws) = w ∷ put_worker i v ws

-- What the session meets: a line, with the surroundings at that time, or a goroutine's step.
pub data Event (Ctx : Type 0) : Type 0 where
  line : Env Ctx → Bytes → Event Ctx
  work : ℕ → Bool → Event Ctx

module _ {Ctx : Type 0} where
  abbrev reply_as : ℕ → Bytes → Phase → Worker → Session Ctx → Outcome (Session Ctx × Option Worker)
  reply_as code message phase w s = do t ← reply code message s; done (t, some (set_phase phase w))

  abbrev abort_reply : Worker → Session Ctx → Outcome (Session Ctx × Option Worker)
  abort_reply = reply_as 426 (text "Transfer aborted.") unwinding

  abbrev error_reply : Worker → Session Ctx → Outcome (Session Ctx × Option Worker)
  error_reply = reply_as 426 (text "Connection closed; transfer aborted.") unwinding

  abbrev finish : Worker → Session Ctx → Outcome (Session Ctx × Option Worker)
  finish w s = do t ← end_transfer s; done (t, some (set_phase ending w))

  -- The copy returned, with or without an error.
  unfoldable pub copy_returned : Bool → Worker → Session Ctx → Outcome (Session Ctx × Option Worker)
  unfolding reply end_transfer
  copy_returned failed w s =
      if checks_first w.command
      then (if contains w.ctx s.cancelled
          then abort_reply w s
          else if failed
          then error_reply w s
          else finish w s)
      else if failed
      then (if contains w.ctx s.cancelled then abort_reply w s else error_reply w s)
      else finish w s

  -- One step of a goroutine: `none` once its deferred `endTransfer` has run.
  unfoldable pub act : Phase → Bool → Worker → Session Ctx → Outcome (Session Ctx × Option Worker)
  unfolding copy_returned
  act copying failed w s = copy_returned failed w s
  act ending failed w s = reply_as 226 (text "Transfer complete.") unwinding w s
  act unwinding failed w s = do t ← end_transfer s; done (t, none)

  unfoldable pub worker_step : ℕ → Bool → Session Ctx → Outcome (Session Ctx)
  unfolding reply
  worker_step i failed s = elim (get_elem? s.workers i) [
    | none ↦ done s
    | some w ↦ do
      r ← act w.phase failed w s
      done (record r.0 { workers = put_worker i r.1 s.workers })
  ]

  unfoldable pub session_step : Event Ctx → Session Ctx → Outcome (Session Ctx)
  unfolding worker_step
  session_step (line e l) s = handle_command e l s
  session_step (work i failed) s = worker_step i failed s

  unfoldable pub run : List (Event Ctx) → Session Ctx → Outcome (Session Ctx)
  unfolding session_step
  run [] s = done s
  run (v ∷ vs) s = do t ← session_step v s; run vs t
