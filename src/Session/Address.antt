-- ===== src/Session/Address.antt =====
-- server/session_transfer.go: PORT and EPRT, PASV and EPSV, and the search for a passive port.
use ftp.Base.{
  ℕ, zero, suc, ◌+◌, ◌-◌, ◌*◌, ◌/◌, ◌%◌, ◌^◌, Bool, true, false, not, ◌&&◌, Option, none, some,
  List, [], ◌∷◌, ◌++◌, Bytes, text, bytes_eq, is_empty, split, join, if◌then◌else◌, leb, ltb, ◌==◌,
  ℤ, pos, negsuc, neg_ℕ, parse_int, show_nat, length,
}
use ftp.Session.State.{Env, Ip, is_v4, Settings, Session, Outcome, reply, with_fs, please_login}
use ftp.Session.Transfer.{validate_active_ip}

-- The value of a Go int that lies in 0 … top.
abbrev pub in_range : ℕ → Option ℤ → Option ℕ
in_range top none = none
in_range top (some (pos n)) = if leb n top then some n else none
in_range top (some (negsuc n)) = none

-- int32: the 32-bit pattern of an integer, and the integer of a pattern.
unfoldable pub word32 : ℤ → ℕ
word32 (pos n) = n % 2 ^ 32
word32 (negsuc n) = 2 ^ 32 - 1 - n % 2 ^ 32

unfoldable pub int32 : ℕ → ℤ
int32 w = if ltb w (2 ^ 31) then pos w else negsuc (2 ^ 32 - 1 - w)

-- a + b and a % n on int32; the remainder has the sign of the dividend.
unfoldable pub add32 : ℤ → ℤ → ℤ
unfolding word32 int32
add32 a b = int32 ((word32 a + word32 b) % 2 ^ 32)

unfoldable pub rem32 : ℤ → ℕ → ℤ
rem32 (pos a) n = pos (a % n)
rem32 (negsuc a) n = neg_ℕ (suc a % n)

-- The port of round `i`: int(int32(minPort) + (startOffset + i) % rangeLen).
unfoldable pub nth_port : ℕ → ℕ → ℤ → ℕ → ℤ
unfolding add32 rem32
nth_port min_port range_len start i = add32 (pos min_port) (rem32 (add32 start (pos i)) range_len)

-- The loop of `listenPassive` from round `i`, with `rounds` rounds left.
unfoldable pub try_ports : (ℤ → Option ℕ) → ℕ → ℕ → ℤ → ℕ → ℕ → Option ℕ
unfolding nth_port
try_ports listen min_port range_len start zero i = none
try_ports listen min_port range_len start (suc rounds) i =
    let rest = try_ports listen min_port range_len start rounds (i + 1) in
    elim (listen (nth_port min_port range_len start i)) [ some l ↦ some l | none ↦ rest ]

abbrev range_of : ℤ → ℤ → Option (ℕ × ℕ)
range_of (pos lo) (pos hi) = if ltb 0 lo && leb lo hi then some (lo, hi) else none
range_of (pos lo) (negsuc hi) = none
range_of (negsuc lo) hi = none

-- The ports of the settings, if they make a range: PasvMinPort > 0 && PasvMaxPort >= PasvMinPort.
abbrev pub port_range : Option Settings → Option (ℕ × ℕ)
port_range none = none
port_range (some t) = range_of t.pasv_min_port t.pasv_max_port

-- The first IPv4 address of a lookup.
abbrev pub first_v4 : List Ip → Option Ip
first_v4 [] = none
first_v4 (ip ∷ ips) = let rest = first_v4 ips in if is_v4 ip then some ip else rest

abbrev is_some : Option Ip → Bool
is_some none = false
is_some (some _) = true

abbrev zeros : List Bytes
zeros = text "0" ∷ text "0" ∷ text "0" ∷ text "0" ∷ []

module _ {Ctx : Type 0} (e : Env Ctx) where
  -- The end of PORT and EPRT: the address must be that of the control connection.
  unfoldable pub set_active : Bytes → Ip → ℕ → Session Ctx → Outcome (Session Ctx)
  unfolding reply
  set_active command ip port s =
      if not (validate_active_ip e ip)
      then reply 500 (text "Illegal " ++ (command ++ text " command.")) s
      else reply 200 (command ++ text " command successful.")
          (record s { active_ip = e.net.ip_string ip; active_port = port })

  unfoldable pub port_parts : List Bytes → Session Ctx → Outcome (Session Ctx)
  unfolding reply
  port_parts (h1 ∷ h2 ∷ h3 ∷ h4 ∷ a ∷ b ∷ []) s = elim (in_range 255 (parse_int a)) [
    | none ↦ reply 501 (text "Invalid port number.") s
    | some p1 ↦ elim (in_range 255 (parse_int b)) [
      | none ↦ reply 501 (text "Invalid port number.") s
      | some p2 ↦ elim (e.net.parse_ip (join (text ".") (h1 ∷ h2 ∷ h3 ∷ h4 ∷ []))) [
        | none ↦ reply 501 (text "Invalid IP address.") s
        | some ip ↦ set_active (text "PORT") ip (p1 * 256 + p2) s
      ]
    ]
  ]
  port_parts _ s = reply 501 (text "Syntax error in parameters or arguments.") s

  unfoldable pub handle_port : Bytes → Session Ctx → Outcome (Session Ctx)
  unfolding reply
  handle_port arg s = if not s.is_logged_in then please_login s else port_parts (split b',' arg) s

  -- The checks of EPRT on the protocol, the address and the port, in the order of the source.
  unfoldable pub eprt_target : Bytes → Bytes → Bytes → Session Ctx → Outcome (Session Ctx)
  unfolding reply
  eprt_target proto host port s = elim (e.net.parse_ip host) [
    | none ↦ reply 501 (text "Invalid network address.") s
    | some ip ↦
        if bytes_eq proto (text "1") && not (is_v4 ip)
        then reply 522 (text "Network protocol not supported, use (2).") s
        else if not (bytes_eq proto (text "1")) && not (bytes_eq proto (text "2"))
        then reply 522 (text "Network protocol not supported, use (1,2).") s
        else (elim (in_range 65535 (parse_int port)) [
          | none ↦ reply 501 (text "Invalid port number.") s
          | some p ↦ set_active (text "EPRT") ip p s
        ])
  ]

  unfoldable pub eprt_parts : List Bytes → Session Ctx → Outcome (Session Ctx)
  unfolding reply
  eprt_parts (_ ∷ proto ∷ host ∷ port ∷ _ ∷ []) s = eprt_target proto host port s
  eprt_parts _ s = reply 501 (text "Syntax error in parameters or arguments.") s

  -- The delimiter is the first byte, an ASCII one.
  unfoldable pub eprt_split : Bytes → Session Ctx → Outcome (Session Ctx)
  unfolding reply
  eprt_split [] s = reply 501 (text "Syntax error in parameters or arguments.") s
  eprt_split (d ∷ rest) s =
      if ltb (length (d ∷ rest)) 4
      then reply 501 (text "Syntax error in parameters or arguments.") s
      else eprt_parts (split d (d ∷ rest)) s

  unfoldable pub handle_eprt : Bytes → Session Ctx → Outcome (Session Ctx)
  unfolding reply
  handle_eprt arg s = if not s.is_logged_in then please_login s else eprt_split arg s

  unfoldable pub listen_passive : Ctx → Option ℕ
  unfolding try_ports
  listen_passive c = elim (port_range (e.driver.get_settings c)) [
    | none ↦ e.net.listen (pos 0)
    | some (lo, hi) ↦ try_ports e.net.listen lo (hi - lo + 1) e.net.next_port (hi - lo + 1) 0
  ]

  -- The listener of PASV and EPSV, with the rest of the handler; one that was open is closed.
  abbrev pub with_listener :
      Session Ctx → (Ctx → ℕ → Session Ctx → Outcome (Session Ctx)) → Outcome (Session Ctx)
  with_listener s k = with_fs s (λ c. elim (listen_passive c) [
    | none ↦ reply 425 (text "Can't open passive connection.") s
    | some l ↦ k c l (record s { pasv_list = some l })
  ])

  -- The host that PASV advertises: the settings' public host, or the local address.
  abbrev pub pasv_host : Option Settings → Bytes
  pasv_host none = e.config.local_addr
  pasv_host (some t) = if is_empty t.public_host then e.config.local_addr else t.public_host

  abbrev lookup_v4 : Bytes → Option Ip
  lookup_v4 host = elim (e.net.lookup_ip host) [ none ↦ none | some ips ↦ first_v4 ips ]

  -- The host's address, and the session with the lookup cached.
  unfoldable pub resolve_host : Bytes → Session Ctx → Session Ctx × Option Ip
  resolve_host host s = elim (e.net.parse_ip host) [
    | some ip ↦ (s, some ip)
    | none ↦
        if bytes_eq host s.last_public_host && is_some s.resolved_ip
        then (s, s.resolved_ip)
        else (elim (lookup_v4 host) [
          | none ↦ (s, none)
          | some ip ↦ (record s { last_public_host = host; resolved_ip = some ip }, some ip)
        ])
  ]

  unfoldable pub ip_parts : Option Ip → List Bytes
  ip_parts none = zeros
  ip_parts (some ip) =
      let parts = split b'.' (e.net.ip_string ip) in
      if is_v4 ip && length parts == 4 then parts else zeros

  -- "h1,h2,h3,h4,p1,p2"
  unfoldable pub pasv_arg : Option Ip → ℕ → Bytes
  unfolding ip_parts
  pasv_arg ip port =
      join (text ",") (ip_parts ip ++ (show_nat (port / 256) ∷ show_nat (port % 256) ∷ []))

  unfoldable pub handle_pasv : Session Ctx → Outcome (Session Ctx)
  unfolding reply resolve_host
  handle_pasv s =
      if not s.is_logged_in
      then please_login s
      else with_listener s (λ c l t.
        let r = resolve_host (pasv_host (e.driver.get_settings c)) t in
        reply 227 (text "Entering Passive Mode (" ++ (pasv_arg r.1 l ++ text ").")) r.0)

  unfoldable pub handle_epsv : Session Ctx → Outcome (Session Ctx)
  unfolding reply
  handle_epsv s =
      if not s.is_logged_in
      then please_login s
      else with_listener s (λ c l.
        reply 229 (text "Entering Extended Passive Mode (|||" ++ (show_nat l ++ text "|)")))
