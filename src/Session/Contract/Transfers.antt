-- ===== src/Session/Contract/Transfers.antt =====
-- The handlers of server/session_transfer.go keep the contract.
use ftp.Base.{
  ℕ, split, ◌≤◌, ℤ, pos, negsuc, Option, none, some, refl, Bool-cases, inl, inr, arith, Bytes, ◌≡◌,
  List, [], ◌∷◌,
}
use ftp.Session.State.{Env, Ip, Session}
use ftp.Session.Transfer.{
  validate_active_ip, handle_retr, handle_stor, handle_appe, handle_stou, handle_type, handle_rest,
}
use ftp.Session.Address.{
  in_range, set_active, port_parts, eprt_target, eprt_parts, eprt_split, handle_port, handle_eprt,
  handle_pasv, handle_epsv,
}
use ftp.Session.Contract.{IsPeer, Inv, Serves}

in_range-le : (top : ℕ) (z : Option ℤ) {n : ℕ} → in_range top z ≡ some n → n ≤ top
in_range-le top none h = cc
in_range-le top (some (pos m)) h = ground arith
in_range-le top (some (negsuc m)) h = cc

module _ {Ctx : Type 0} (e : Env Ctx) (s : Session Ctx) (i : Inv s) where
  pub handle_retr-Serves : (arg : Bytes) → Serves e s (handle_retr e arg s)
  unfolding handle_retr
  handle_retr-Serves arg = ground arith

  pub handle_stor-Serves : (arg : Bytes) → Serves e s (handle_stor e arg s)
  unfolding handle_stor
  handle_stor-Serves arg = ground arith

  pub handle_appe-Serves : (arg : Bytes) → Serves e s (handle_appe e arg s)
  unfolding handle_appe
  handle_appe-Serves arg = ground arith

  pub handle_stou-Serves : Serves e s (handle_stou e s)
  unfolding handle_stou
  handle_stou-Serves = ground arith

  pub handle_type-Serves : (arg : Bytes) → Serves e s (handle_type e arg s)
  unfolding handle_type
  handle_type-Serves arg = ground arith

  pub handle_rest-Serves : (arg : Bytes) → Serves e s (handle_rest e arg s)
  unfolding handle_rest
  handle_rest-Serves arg = ground arith

  set_active-Serves :
      (command : Bytes) (ip : Ip) (port : ℕ)
      → port ≤ 65535
      → Serves e s (set_active e command ip port s)
  unfolding set_active
  set_active-Serves command ip port h = elim (Bool-cases (validate_active_ip e ip)) [
    | inl same ↦
        let peer : IsPeer e (e.net.ip_string ip) = record {
          ip = ip;
          printed = refl;
          same_host = same;
        } in
        rw same (ground arith)
    | inr other ↦ rw other (ground arith)
  ]

  port_parts-Serves : (parts : List Bytes) → Serves e s (port_parts e parts s)
  unfolding port_parts
  port_parts-Serves (h1 ∷ h2 ∷ h3 ∷ h4 ∷ a ∷ b ∷ []) = grind (arith, set_active-Serves, in_range-le)
  port_parts-Serves _ = ground arith

  pub handle_port-Serves : (arg : Bytes) → Serves e s (handle_port e arg s)
  unfolding handle_port
  handle_port-Serves arg = ground (arith, port_parts-Serves (split b',' arg))

  eprt_target-Serves : (proto host port : Bytes) → Serves e s (eprt_target e proto host port s)
  unfolding eprt_target
  eprt_target-Serves proto host port = grind (arith, set_active-Serves, in_range-le)

  eprt_parts-Serves : (parts : List Bytes) → Serves e s (eprt_parts e parts s)
  unfolding eprt_parts
  eprt_parts-Serves (a ∷ proto ∷ host ∷ port ∷ b ∷ []) = eprt_target-Serves proto host port
  eprt_parts-Serves _ = ground arith

  eprt_split-Serves : (arg : Bytes) → Serves e s (eprt_split e arg s)
  unfolding eprt_split
  eprt_split-Serves [] = ground arith
  eprt_split-Serves (d ∷ rest) = ground (arith, eprt_parts-Serves (split d (d ∷ rest)))

  pub handle_eprt-Serves : (arg : Bytes) → Serves e s (handle_eprt e arg s)
  unfolding handle_eprt
  handle_eprt-Serves arg = ground (arith, eprt_split-Serves arg)

  pub handle_pasv-Serves : Serves e s (handle_pasv e s)
  unfolding handle_pasv
  handle_pasv-Serves = ground arith

  pub handle_epsv-Serves : Serves e s (handle_epsv e s)
  unfolding handle_epsv
  handle_epsv-Serves = ground arith
