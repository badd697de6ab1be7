-- ===== src/Client/Data.antt =====
-- data.go: the addresses of data connections, as the server announces them and as the client sends
-- them; with what the source uses of the packages regexp, net and strconv. Addresses in IPv6 form
-- are read by a parameter.
pub mod Groups
pub mod Passive
pub mod Hosts
pub mod Active
pub mod Announced
use ftp.Base.{
  ℕ, suc, parse_uint, neg_ℕ, ◌+◌, ◌-◌, ◌*◌, ◌/◌, ◌%◌, ◌^◌, not, ◌&&◌, ◌||◌, Option, none, some,
  List, [], ◌∷◌, ◌++◌, ◌>>=◌, Bytes, reverse, cut, text, bytes_eq, is_empty, is_digit,
  contains_byte, split, join, if◌then◌else◌, leb, ◌==◌, ℤ, pos, negsuc, parse_int, show_nat,
  show_int,
}
use ftp.Session.State.{Ip, v4, v6, is_v4}

-- `(\d+)`, greedy: the digits at the front, and what follows them.
unfoldable pub digit_run : Bytes → Bytes × Bytes
digit_run [] = ([], [])
digit_run (c ∷ s) = let r = digit_run s in if is_digit c then (c ∷ r.0, r.1) else ([], c ∷ s)

-- The byte `b` at the front, taken off.
abbrev pub after_byte : ℕ → Bytes → Option Bytes
after_byte b [] = none
after_byte b (c ∷ s) = if c == b then some s else none

-- Groups of digits, each followed by the next byte of the list.
unfoldable pub match_groups : Bytes → Bytes → Option (List Bytes)
unfolding digit_run
match_groups [] s = some []
match_groups (b ∷ bs) s =
    let r = digit_run s in
    if is_empty r.0 then none else (elim (after_byte b r.1) [
      | none ↦ none
      | some s' ↦ elim (match_groups bs s') [ none ↦ none | some gs ↦ some (r.0 ∷ gs) ]
    ])

-- A literal at the front, taken off.
unfoldable pub after_text : Bytes → Bytes → Option Bytes
after_text [] s = some s
after_text (p ∷ ps) s = elim (after_byte p s) [ none ↦ none | some s' ↦ after_text ps s' ]

unfoldable pub match_here : Bytes → Bytes → Bytes → Option (List Bytes)
unfolding match_groups after_text
match_here open_with ends s = elim (after_text open_with s) [
  | none ↦ none
  | some s' ↦ match_groups ends s'
]

-- FindStringSubmatch: the groups of the leftmost match.
unfoldable pub find_submatch : Bytes → Bytes → Bytes → Option (List Bytes)
unfolding match_here
find_submatch open_with ends [] = none
find_submatch open_with ends (c ∷ s) =
    let later = find_submatch open_with ends s in
    elim (match_here open_with ends (c ∷ s)) [ some gs ↦ some gs | none ↦ later ]

-- `pasvRegex`
abbrev pub pasv_regex : Bytes → Option (List Bytes)
pasv_regex = find_submatch (text "(") (text ",,,,,)")

-- `epsvRegex`
abbrev pub epsv_regex : Bytes → Option (List Bytes)
epsv_regex = find_submatch (text "(|||") (b'|' ∷ [])

-- net.JoinHostPort
unfoldable pub join_host_port : Bytes → Bytes → Bytes
join_host_port host port =
    if contains_byte b':' host then b'[' ∷ (host ++ (b']' ∷ b':' ∷ port)) else host ++ (b':' ∷ port)

-- A number of 0 … top.
abbrev pub small : ℕ → Bytes → Option ℕ
small top s = elim (parse_int s) [
  | none ↦ none
  | some z ↦ elim z [ pos n ↦ if leb n top then some n else none | negsuc _ ↦ none ]
]

abbrev pub dotted : ℕ → ℕ → ℕ → ℕ → Bytes
dotted a b c d = join (text ".") (show_nat a ∷ show_nat b ∷ show_nat c ∷ show_nat d ∷ [])

-- The host of the first four groups of a PASV reply, if each is a byte.
unfoldable pub pasv_host : Bytes → Bytes → Bytes → Bytes → Option Bytes
pasv_host g1 g2 g3 g4 = do
  a ← small 255 g1
  b ← small 255 g2
  c ← small 255 g3
  d ← small 255 g4
  some (dotted a b c d)

-- `parsePASV`
unfoldable pub parse_pasv : Bytes → Option Bytes
unfolding find_submatch match_here join_host_port pasv_host
parse_pasv response = elim (pasv_regex response) [
  | some (g1 ∷ g2 ∷ g3 ∷ g4 ∷ g5 ∷ g6 ∷ []) ↦ do
    host ← pasv_host g1 g2 g3 g4
    p1 ← small 255 g5
    p2 ← small 255 g6
    some (join_host_port host (show_nat (p1 * 256 + p2)))
  | _ ↦ none
]

-- `parseEPSV`: the port as it was written.
unfoldable pub parse_epsv : Bytes → Option Bytes
unfolding find_submatch match_here
parse_epsv response = elim (epsv_regex response) [
  | some (g ∷ []) ↦ do port ← small 65535 g; some g
  | _ ↦ none
]

-- One part of a dotted address: no sign, and no zero in front.
unfoldable pub octet : Bytes → Option ℕ
octet [] = none
octet (c ∷ []) = if is_digit c then some (c - b'0') else none
octet (c ∷ d ∷ s) = if is_digit c && not (c == b'0') then parse_uint 10 255 (c ∷ d ∷ s) else none

abbrev pub ip_of : ℕ → ℕ → ℕ → ℕ → Ip
ip_of a b c d = v4 (a * 2 ^ 24 + b * 2 ^ 16 + c * 2 ^ 8 + d)

unfoldable pub parse_v4 : List Bytes → Option Ip
unfolding octet
parse_v4 (p ∷ q ∷ r ∷ t ∷ []) = do
  a ← octet p
  b ← octet q
  c ← octet r
  d ← octet t
  some (ip_of a b c d)
parse_v4 _ = none

-- The first dot or colon decides how net.ParseIP reads a text.
abbrev ip_kind : Bytes → ℕ
ip_kind [] = 0
ip_kind (c ∷ s) = let later = ip_kind s in if c == b'.' || c == b':' then c else later

-- net.ParseIP, with a parameter that reads the addresses with a colon.
unfoldable pub parse_ip : (Bytes → Option Ip) → Bytes → Option Ip
unfolding parse_v4
parse_ip parse_v6 s =
    if ip_kind s == b'.'
    then parse_v4 (split b'.' s)
    else if ip_kind s == b':'
    then parse_v6 s
    else none

-- The parts of a text at the last occurrence of a byte.
abbrev pub cut_last : ℕ → Bytes → Option (Bytes × Bytes)
cut_last b s = elim (cut b (reverse s)) [
  | none ↦ none
  | some (after, before) ↦ some (reverse before, reverse after)
]

abbrev bracketed : Bytes → Option (Bytes × Bytes)
bracketed s = elim (cut b']' s) [
  | none ↦ none
  | some (host, after) ↦ elim (after_byte b':' after) [
    | none ↦ none
    | some port ↦
        if contains_byte b':' port
          || (contains_byte b'[' host || (contains_byte b'[' port || contains_byte b']' port))
        then none
        else some (host, port)
  ]
]

abbrev unbracketed : Bytes → Option (Bytes × Bytes)
unbracketed s = elim (cut_last b':' s) [
  | none ↦ none
  | some (host, port) ↦
      if contains_byte b':' host || (contains_byte b'[' s || contains_byte b']' s)
      then none
      else some (host, port)
]

-- net.SplitHostPort
unfoldable pub split_host_port : Bytes → Option (Bytes × Bytes)
split_host_port [] = none
split_host_port (c ∷ s) = if c == b'[' then bracketed s else unbracketed (c ∷ s)

-- Division by 256 as Go has it: towards zero.
abbrev pub quot_256 : ℤ → ℤ
quot_256 (pos n) = pos (n / 256)
quot_256 (negsuc n) = neg_ℕ (suc n / 256)

abbrev pub rem_256 : ℤ → ℤ
rem_256 (pos n) = pos (n % 256)
rem_256 (negsuc n) = neg_ℕ (suc n % 256)

-- The argument of PORT for an address in four bytes, and a port.
unfoldable pub port_arg : Ip → ℤ → Option Bytes
port_arg (v4 n) port = some (
    join (text ",") (
      show_nat (n / 2 ^ 24)
      ∷ show_nat (n / 2 ^ 16 % 256)
      ∷ show_nat (n / 2 ^ 8 % 256)
      ∷ show_nat (n % 256)
      ∷ show_int (quot_256 port)
      ∷ show_int (rem_256 port)
      ∷ []))
port_arg (v6 _) port = none

module _ (parse_v6 : Bytes → Option Ip) where
  -- `formatPORT`
  unfoldable pub format_port : Bytes → Option Bytes
  unfolding port_arg
  format_port addr = do
    hp ← split_host_port addr
    ip ← parse_ip parse_v6 hp.0
    port ← parse_int hp.1
    port_arg ip port

  -- `formatEPRT`: To16 gives an address for every one that was parsed.
  unfoldable pub format_eprt : Bytes → Option Bytes
  format_eprt addr = do
    hp ← split_host_port addr
    ip ← parse_ip parse_v6 hp.0
    some (
        b'|'
        ∷ ((if is_v4 ip then text "1" else text "2")
            ++ (b'|' ∷ (hp.0 ++ (b'|' ∷ (hp.1 ++ (b'|' ∷ [])))))))

-- `resolveDataAddr`
unfoldable pub resolve_data_addr : Bytes → Bytes → Bytes
unfolding split_host_port join_host_port
resolve_data_addr pasv_addr control_host = elim (split_host_port pasv_addr) [
  | none ↦ pasv_addr
  | some (host, port) ↦
      if bytes_eq host (text "0.0.0.0") then join_host_port control_host port else pasv_addr
]
