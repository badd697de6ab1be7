-- ===== src/Session/Keep/Transfers.antt =====
-- The handlers of server/session_transfer.go keep what the driver keeps.
use ftp.Base.{ℕ, List, [], ◌∷◌, split, arith, Bytes, text, ◌++◌}
use ftp.Session.State.{Env, Ip, Session}
use ftp.Session.Transfer.{
  handle_retr, handle_stor, handle_appe, handle_stou, handle_type, handle_rest, read_only,
  write_new, write_at, write_end,
}
use ftp.Session.Address.{
  handle_port, handle_eprt, handle_pasv, handle_epsv, port_parts, eprt_target, eprt_parts,
  eprt_split, set_active,
}
use ftp.Session.Keep.{Preserves, Holds, Keeps, with_context}

module _ {Ctx : Type 0} (e : Env Ctx) (P : Ctx → Type 0) (p : Preserves e.driver P)
    (s : Session Ctx) (h : Holds P s.fs) where
  pub handle_retr-Keeps : (path : Bytes) → Keeps P (handle_retr e path s)
  unfolding handle_retr
  handle_retr-Keeps path =
      with_context P s _ h (λ n. ground arith)
        (λ c e1 pc. ground (arith, p.open_file path read_only c pc))

  pub handle_stor-Keeps : (path : Bytes) → Keeps P (handle_stor e path s)
  unfolding handle_stor
  handle_stor-Keeps path =
      with_context P s _ h (λ n. ground arith)
        (λ c e1 pc. ground (arith, p.open_file path write_new c pc, p.open_file path write_at c pc))

  pub handle_appe-Keeps : (path : Bytes) → Keeps P (handle_appe e path s)
  unfolding handle_appe
  handle_appe-Keeps path =
      with_context P s _ h (λ n. ground arith)
        (λ c e1 pc. ground (arith, p.open_file path write_end c pc))

  pub handle_stou-Keeps : Keeps P (handle_stou e s)
  unfolding handle_stou
  handle_stou-Keeps =
      with_context P s _ h (λ n. ground arith)
        (λ c e1 pc. ground (arith, p.open_file (text "ftp-" ++ e.net.unix_nano) write_new c pc))

  pub handle_type-Keeps : (path : Bytes) → Keeps P (handle_type e path s)
  unfolding handle_type
  handle_type-Keeps path = ground arith

  pub handle_rest-Keeps : (path : Bytes) → Keeps P (handle_rest e path s)
  unfolding handle_rest
  handle_rest-Keeps path = ground arith

  set_active-Keeps :
      (command : Bytes) (ip : Ip) (port : ℕ) → Keeps P (set_active e command ip port s)
  unfolding set_active
  set_active-Keeps command ip port = ground arith

  port_parts-Keeps : (parts : List Bytes) → Keeps P (port_parts e parts s)
  unfolding port_parts
  port_parts-Keeps (h1 ∷ h2 ∷ h3 ∷ h4 ∷ a ∷ b ∷ []) = grind (arith, set_active-Keeps)
  port_parts-Keeps _ = ground arith

  eprt_target-Keeps : (proto host port : Bytes) → Keeps P (eprt_target e proto host port s)
  unfolding eprt_target
  eprt_target-Keeps proto host port = grind (arith, set_active-Keeps)

  eprt_parts-Keeps : (parts : List Bytes) → Keeps P (eprt_parts e parts s)
  unfolding eprt_parts
  eprt_parts-Keeps (a ∷ proto ∷ host ∷ port ∷ b ∷ []) = eprt_target-Keeps proto host port
  eprt_parts-Keeps _ = ground arith

  eprt_split-Keeps : (arg : Bytes) → Keeps P (eprt_split e arg s)
  unfolding eprt_split
  eprt_split-Keeps [] = ground arith
  eprt_split-Keeps (d ∷ rest) = ground (arith, eprt_parts-Keeps (split d (d ∷ rest)))

  pub handle_port-Keeps : (path : Bytes) → Keeps P (handle_port e path s)
  unfolding handle_port
  handle_port-Keeps path = ground (arith, port_parts-Keeps (split b',' path))

  pub handle_eprt-Keeps : (path : Bytes) → Keeps P (handle_eprt e path s)
  unfolding handle_eprt
  handle_eprt-Keeps path = ground (arith, eprt_split-Keeps path)

  pub handle_pasv-Keeps : Keeps P (handle_pasv e s)
  unfolding handle_pasv
  handle_pasv-Keeps = ground arith

  pub handle_epsv-Keeps : Keeps P (handle_epsv e s)
  unfolding handle_epsv
  handle_epsv-Keeps = ground arith
