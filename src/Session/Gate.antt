-- ===== src/Session/Gate.antt =====
-- A race between a transfer's deferred calls and the next transfer (server/session_transfer.go).
use ftp.Base.{◌+◌, true, false, none, List, ◌∷◌, ◌≡◌, refl, arith, text}
use ftp.Session.State.{Verb, copying, unwinding, Worker, Session, done, ◌>>=◌, reply_line}
use ftp.Session.Transfer.{cancel_transfer, start_transfer}
use ftp.Session.Worker.{contains, checks_first, put_worker, act, worker_step}
use ftp.Session.Contract.{Inv}

module _ {Ctx : Type 0} where
  -- The session once the second of two transfers was cancelled by the first one's deferred call.
  abbrev raced : Session Ctx → Worker → List Worker → Verb → Session Ctx
  raced s w ws v = record s {
    busy = false;
    transfer_ctx = none;
    contexts = s.contexts + 1;
    cancelled = s.contexts ∷ (cancel_transfer s).cancelled;
    workers = record { command = v; phase = unwinding; ctx = s.contexts } ∷ ws;
    out =
        reply_line 426 (text "Transfer aborted.")
        ∷ reply_line 226 (text "Transfer complete.")
        ∷ s.out;
  }

  -- From a session in a regular state whose last transfer is copying and was not cancelled: its copy
  -- succeeds, it writes 226, a second transfer of RETR or STOR starts, the first one's deferred
  -- endTransfer runs, and the second one's copy succeeds. Then all these steps end, the second transfer
  -- is answered by 426, and the session is not busy.
  pub late_unwind_aborts :
      (s : Session Ctx) (w : Worker) (ws : List Worker) (v : Verb)
      → Inv s
      → s.workers ≡ w ∷ ws
      → w.phase ≡ copying
      → contains w.ctx s.cancelled ≡ false
      → checks_first v ≡ true
      → (t : Session Ctx) × ((do
        a ← worker_step 0 false s
        b ← worker_step 0 false a
        c ← start_transfer v b
        d ← worker_step 1 false c
        worker_step 0 false d)
          ≡ done t)
        × (t.out
            ≡ reply_line 426 (text "Transfer aborted.")
              ∷ reply_line 226 (text "Transfer complete.")
              ∷ s.out)
        × (t.busy ≡ false)
  unfolding worker_step act put_worker start_transfer
  late_unwind_aborts s w ws v i h p c f = (raced s w ws v, ground arith, refl, refl)
