-- ===== src/Session/Run.antt =====
-- Whole sessions of server/session.go: what holds after any sequence of lines and of steps of the
-- transfers' goroutines.
pub mod Safety
pub mod Bounce
use ftp.Base.{
  ℕ, zero, suc, ◌+◌, Bool, true, false, Option, none, some, List, [], ◌∷◌, ◌≡◌, ◌≢◌, ◌⊎◌, inl, inr,
  refl, arith, Bytes, text, get_elem?, Option-cases, is_empty, bytes_eq, if◌then◌else◌, trim_right,
  is_eol, All,
}
use ftp.Session.State.{
  Env, Ip, Phase, copying, ending, unwinding, Worker, Session, Outcome, done, panic, deadlock,
  finals, ◌>>=◌,
}
use ftp.Session.State.{new_session}
use ftp.Session.Info.{is_hash_name}
use ftp.Session.Dispatch.{handle_command}
use ftp.Session.Worker.{act, put_worker, worker_step, Event, line, work, session_step, run}
use ftp.Session.Contract.{Inv, IsPeer, Served, Serves, owes, owed}
use ftp.Session.Contract.Commands.{command_name, IsBlank, handle_command-Serves}
use ftp.Session.Contract.Lines.{
  Handled, HandledIfDone, handle_command-Handled, handle_command-blank, SameLogin, Accepted,
}

abbrev owes_after : Option Worker → ℕ
owes_after none = 0
owes_after (some w) = owes w.phase

owed-put_worker :
    (i : ℕ) (ws : List Worker) (w : Worker) (v : Option Worker)
    → get_elem? ws i ≡ some w
    → owed (put_worker i v ws) + owes w.phase ≡ owed ws + owes_after v
unfolding put_worker
owed-put_worker i [] w v h = cc
owed-put_worker zero (x ∷ ws) w v h = ground arith
owed-put_worker (suc i) (x ∷ ws) w v h = omega (arith, owed-put_worker i ws w v h)

pub >>=-eq-done :
    {A B : Type 0} (m : Outcome A) (f : A → Outcome B) {b : B}
    → (m >>= f) ≡ done b
    → (a : A) × (m ≡ done a) × (f a ≡ done b)
>>=-eq-done (done a) f h = (a, refl, h)
>>=-eq-done panic f h = cc
>>=-eq-done deadlock f h = cc

pub Bytes-cases : (b : Bytes) → (b ≡ []) ⊎ (b ≢ [])
Bytes-cases [] = inl refl
Bytes-cases (c ∷ b) = inr cc

module _ {Ctx : Type 0} where
  -- What a goroutine's step changes of the session: neither the login nor what commands set up.
  pub record Moved (s t : Session Ctx) : Type 0 where
    pub inv : Inv t
    pub answered : finals t.out + owed t.workers ≡ finals s.out + owed s.workers
    pub same_target : t.active_ip ≡ s.active_ip
    pub same_login : t.is_logged_in ≡ s.is_logged_in
    pub same_fs : t.fs ≡ s.fs

  abbrev pub Moves : Session Ctx → Outcome (Session Ctx) → Type 0
  Moves s (done t) = Moved s t
  Moves s panic = ⊥
  Moves s deadlock = ⊥

  record Acted (w : Worker) (s : Session Ctx) (r : Session Ctx × Option Worker) : Type 0 where
    inv : Inv r.0
    answered : finals r.0.out + owes_after r.1 ≡ finals s.out + owes w.phase
    same_target : r.0.active_ip ≡ s.active_ip
    same_login : r.0.is_logged_in ≡ s.is_logged_in
    same_fs : r.0.fs ≡ s.fs

  abbrev Acts : Worker → Session Ctx → Outcome (Session Ctx × Option Worker) → Type 0
  Acts w s (done r) = Acted w s r
  Acts w s panic = ⊥
  Acts w s deadlock = ⊥

  act-Acts :
      (w : Worker) (failed : Bool) (s : Session Ctx) → Inv s → Acts w s (act w.phase failed w s)
  unfolding act
  act-Acts w failed s i = ground arith

  pub worker_step-Moves :
      (n : ℕ) (failed : Bool) (s : Session Ctx) → Inv s → Moves s (worker_step n failed s)
  unfolding worker_step
  worker_step-Moves n failed s i = elim (Option-cases (get_elem? s.workers n)) [
    | inl h ↦ ground arith
    | inr (w, h) ↦ moved w h (act w.phase failed w s) refl (act-Acts w failed s i)
  ]
    where
      moved :
          (w : Worker)
          → get_elem? s.workers n ≡ some w
          → (o : Outcome (Session Ctx × Option Worker)) → act w.phase failed w s ≡ o
          → Acts w s o
          → Moves s (worker_step n failed s)
      moved w h (done r) e a = ground (arith, owed-put_worker n s.workers w r.1 h)
      moved w h panic e a = absurd a
      moved w h deadlock e a = absurd a

  abbrev pub is_command : Event Ctx → ℕ
  is_command (line _ l) = if is_empty (trim_right is_eol l) then 0 else 1
  is_command (work _ _) = 0

  -- How many lines that are not blank were sent.
  abbrev pub commands : List (Event Ctx) → ℕ
  commands [] = 0
  commands (v ∷ vs) = is_command v + commands vs

  pub record Stepped (v : Event Ctx) (s t : Session Ctx) : Type 0 where
    pub inv : Inv t
    pub answered : finals t.out + owed t.workers ≡ finals s.out + owed s.workers + is_command v

  pub step-Stepped :
      (v : Event Ctx) (s t : Session Ctx) → Inv s → session_step v s ≡ done t → Stepped v s t
  unfolding session_step
  step-Stepped (work n failed) s t i h = ground (arith, rw h at (worker_step-Moves n failed s i))
  step-Stepped (line e l) s t i h = elim (Bytes-cases (trim_right is_eol l)) [
    | inl b ↦ ground (arith, handle_command-blank e s i l b)
    | inr nb ↦ ground (arith, rw h at (handle_command-Handled e s i l nb))
  ]

  run-answered :
      (vs : List (Event Ctx)) (s t : Session Ctx)
      → Inv s
      → run vs s ≡ done t
      → Inv t × (finals t.out + owed t.workers ≡ finals s.out + owed s.workers + commands vs)
  unfolding run
  run-answered [] s t i h = ground arith
  run-answered (v ∷ vs) s t i h =
      let (u, first, later) = >>=-eq-done (session_step v s) (run vs) h in
      let here = step-Stepped v s u i first in
      let rest = run-answered vs u t here.inv later in
      (rest.0, omega (arith, here.answered, rest.1))

  pub new_session-Inv : (implicit : Bool) → Inv (new_session {Ctx = Ctx} implicit)
  unfolding new_session is_hash_name bytes_eq text
  new_session-Inv implicit = ground arith

  -- After any sequence of lines and of steps of the transfers' goroutines on a new session, if none of
  -- them panicked or hung: the final replies written, with those that goroutines have still to write,
  -- are as many as the lines that were not blank.
  pub session_answers :
      (implicit : Bool) (vs : List (Event Ctx)) (t : Session Ctx)
      → run vs (new_session implicit) ≡ done t
      → finals t.out + owed t.workers ≡ commands vs
  unfolding new_session
  session_answers implicit vs t h =
      let all = run-answered vs (new_session implicit) t (new_session-Inv implicit) h in
      omega (arith, all.1)
