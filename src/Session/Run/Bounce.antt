-- ===== src/Session/Run/Bounce.antt =====
-- The address that active mode may dial (`validateActiveIP`, PORT and EPRT).
use ftp.Base.{
  Bool, Option, some, List, [], ◌∷◌, ◌≡◌, ◌⊎◌, inl, inr, refl, ◌∙◌, ap, arith, Bytes, All,
  trim_right, is_eol, Option-cases, true,
}
use ftp.Session.State.{Env, Ip, ip_equal, Session, done, new_session}
use ftp.Session.Transfer.{validate_active_ip}
use ftp.Session.Worker.{Event, line, work, session_step, run}
use ftp.Session.Contract.{Inv, IsPeer}
use ftp.Session.Contract.Lines.{handle_command-Handled, handle_command-blank}
use ftp.Session.Run.{>>=-eq-done, Bytes-cases, worker_step-Moves, step-Stepped, new_session-Inv}

-- The address of the control connection's other end, as it is printed.
pub record IsPeerAddress (host : Bytes) (parse : Bytes → Option Ip) (print : Ip → Bytes)
    (address : Bytes) : Type 0 where
  pub ip : Ip
  pub remote : Ip
  pub printed : address ≡ print ip
  pub parsed : parse host ≡ some remote
  pub same : ip_equal ip remote ≡ true

abbrev pub IsTarget : Bytes → (Bytes → Option Ip) → (Ip → Bytes) → Bytes → Type 0
IsTarget host parse print address = (address ≡ []) ⊎ IsPeerAddress host parse print address

module _ {Ctx : Type 0} (host : Bytes) (parse : Bytes → Option Ip) (print : Ip → Bytes) where
  -- Every command meets the same peer and the same way to read and write addresses.
  abbrev pub SameNet : Event Ctx → Type 0
  SameNet (line e _) =
      (e.config.remote_addr ≡ host) × (e.net.parse_ip ≡ parse) × (e.net.ip_string ≡ print)
  SameNet (work _ _) = Unit

  validated :
      (e : Env Ctx) (ip : Ip)
      → e.config.remote_addr ≡ host
      → e.net.parse_ip ≡ parse
      → validate_active_ip e ip ≡ true
      → (r : Ip) × (parse host ≡ some r) × (ip_equal ip r ≡ true)
  unfolding validate_active_ip
  validated e ip h p v = elim (Option-cases (parse host)) [
    | inl n ↦ absurd (ground (arith, ap (λ (f : Bytes → Option Ip). f e.config.remote_addr) p))
    | inr (r, f) ↦ (r, f, ground (arith, ap (λ (f : Bytes → Option Ip). f e.config.remote_addr) p))
  ]

  peer_address :
      (e : Env Ctx) (l address : Bytes)
      → SameNet (line e l)
      → IsPeer e address
      → IsPeerAddress host parse print address
  peer_address e l address (h, p, q) peer =
      let (r, f, same) = validated e peer.ip h p peer.same_host in
      record {
        ip = peer.ip;
        remote = r;
        printed = peer.printed ∙ ap (λ (f : Ip → Bytes). f peer.ip) q;
        parsed = f;
        same = same;
      }

  line-IsTarget :
      (e : Env Ctx) (l : Bytes) (s t : Session Ctx)
      → SameNet (line e l)
      → (t.active_ip ≡ s.active_ip) ⊎ ((t.active_ip ≡ []) ⊎ IsPeer e t.active_ip)
      → IsTarget host parse print s.active_ip
      → IsTarget host parse print t.active_ip
  line-IsTarget e l s t c (inl same) h = rw same h
  line-IsTarget e l s t c (inr (inl none_left)) h = inl none_left
  line-IsTarget e l s t c (inr (inr peer)) h = inr (peer_address e l _ c peer)

  step-IsTarget :
      (v : Event Ctx) (s t : Session Ctx)
      → SameNet v
      → Inv s
      → IsTarget host parse print s.active_ip
      → session_step v s ≡ done t
      → IsTarget host parse print t.active_ip
  unfolding session_step
  step-IsTarget (work n failed) s t c i h e =
      rw (rw e at (worker_step-Moves n failed s i)).same_target h
  step-IsTarget (line env l) s t c i h e = elim (Bytes-cases (trim_right is_eol l)) [
    | inl b ↦ ground (arith, handle_command-blank env s i l b)
    | inr nb ↦ line-IsTarget env l s t c (rw e at (handle_command-Handled env s i l nb)).target h
  ]

  run-IsTarget :
      (vs : List (Event Ctx)) (s t : Session Ctx)
      → All SameNet vs
      → Inv s
      → IsTarget host parse print s.active_ip
      → run vs s ≡ done t
      → IsTarget host parse print t.active_ip
  unfolding run
  run-IsTarget [] s t c i h e = ground arith
  run-IsTarget (v ∷ vs) s t c i h e =
      let (u, first, later) = >>=-eq-done (session_step v s) (run vs) e in
      run-IsTarget vs u t c.1 (step-Stepped v s u i first).inv (step-IsTarget v s u c.0 i h first)
        later

  -- After any sequence of lines and of goroutine steps on a new session, all of them with one remote
  -- host and one way to read and print addresses, if none panicked or hung: the address that active
  -- mode will dial is empty, or prints an address equal to the one the remote host's text reads as.
  pub no_bounce :
      (implicit : Bool) (vs : List (Event Ctx)) (t : Session Ctx)
      → All SameNet vs
      → run vs (new_session implicit) ≡ done t
      → IsTarget host parse print t.active_ip
  unfolding new_session
  no_bounce implicit vs t c e =
      run-IsTarget vs (new_session implicit) t c (new_session-Inv implicit) (inl refl) e
