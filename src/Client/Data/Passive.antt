-- ===== src/Client/Data/Passive.antt =====
-- The replies of PASV and EPSV (server/session_transfer.go), as the client reads them (data.go).
use ftp.Base.{
  ℕ, ◌+◌, ◌*◌, ◌/◌, ◌%◌, ◌^◌, ◌≤◌, ◌<◌, map, [], ◌∷◌, ◌++◌, ◌≡◌, refl, ap, ◌∙◌, arith, some, Bytes,
  text, join, show_nat, parse_int-show_nat, append_assoc, contains_byte, contains_byte-Lacks,
}
use ftp.Client.Data.{
  parse_pasv, parse_epsv, small, join_host_port, dotted, pasv_regex, epsv_regex, after_text,
  match_groups, pasv_host,
}
use ftp.Client.Data.Groups.{chain, match_groups-chain, find_submatch-skip, find_submatch-here}

pub small-show_nat : (top n : ℕ) → n ≤ top → n < 2 ^ 63 → small top (show_nat n) ≡ some n
small-show_nat top n le fits = rw (small, parse_int-show_nat n fits) (ground arith)

-- The line of a reply to PASV.
abbrev pub pasv_line : ℕ → ℕ → ℕ → ℕ → ℕ → ℕ → Bytes
pasv_line a b c d p q =
    text "227 Entering Passive Mode ("
    ++ (join (text ",")
          (show_nat a ∷ show_nat b ∷ show_nat c ∷ show_nat d ∷ show_nat p ∷ show_nat q ∷ [])
        ++ text ").")

module _ (a b c d p q : ℕ) where
  flat :
      join
          (text ",")
          (show_nat a ∷ show_nat b ∷ show_nat c ∷ show_nat d ∷ show_nat p ∷ show_nat q ∷ [])
        ++ text ")."
      ≡ chain (text ",,,,,)") (a ∷ b ∷ c ∷ d ∷ p ∷ q ∷ []) (b'.' ∷ [])
  unfolding text join
  flat = simp append_assoc

  groups :
      match_groups (text ",,,,,)") (chain (text ",,,,,)") (a ∷ b ∷ c ∷ d ∷ p ∷ q ∷ []) (b'.' ∷ []))
      ≡ some (map show_nat (a ∷ b ∷ c ∷ d ∷ p ∷ q ∷ []))
  unfolding text
  groups =
      match_groups-chain (text ",,,,,)") (a ∷ b ∷ c ∷ d ∷ p ∷ q ∷ []) (b'.' ∷ [])
        (refl, (refl, (refl, (refl, (refl, (refl, tt)))))) refl

  found : pasv_regex (pasv_line a b c d p q) ≡ some (map show_nat (a ∷ b ∷ c ∷ d ∷ p ∷ q ∷ []))
  unfolding text after_text contains_byte
  found =
      ap pasv_regex (ap (λ t. text "227 Entering Passive Mode (" ++ t) flat)
      ∙ find_submatch-skip b'(' [] (text ",,,,,)") (text "227 Entering Passive Mode ") _
          (contains_byte-Lacks b'(' (text "227 Entering Passive Mode ") refl)
      ∙ find_submatch-here b'(' [] (text ",,,,,)") _ _ _ refl groups

pasv_host-show_nat :
    (a b c d : ℕ)
    → a ≤ 255
    → b ≤ 255
    → c ≤ 255
    → d ≤ 255
    → pasv_host (show_nat a) (show_nat b) (show_nat c) (show_nat d) ≡ some (dotted a b c d)
unfolding pasv_host
pasv_host-show_nat a b c d ha hb hc hd =
    rw
      (
        small-show_nat 255 a ha (omega arith),
        small-show_nat 255 b hb (omega arith),
        small-show_nat 255 c hc (omega arith),
        small-show_nat 255 d hd (omega arith),
      )
      refl

parse_pasv-groups :
    (r g1 g2 g3 g4 g5 g6 host : Bytes) (p1 p2 : ℕ)
    → pasv_regex r ≡ some (g1 ∷ g2 ∷ g3 ∷ g4 ∷ g5 ∷ g6 ∷ [])
    → pasv_host g1 g2 g3 g4 ≡ some host
    → small 255 g5 ≡ some p1
    → small 255 g6 ≡ some p2
    → parse_pasv r ≡ some (join_host_port host (show_nat (p1 * 256 + p2)))
unfolding parse_pasv
parse_pasv-groups r g1 g2 g3 g4 g5 g6 host p1 p2 e h f g = rw (parse_pasv, e, h, f, g) refl

pub parse_pasv-line :
    (a b c d port : ℕ)
    → a ≤ 255
    → b ≤ 255
    → c ≤ 255
    → d ≤ 255
    → port ≤ 65535
    → parse_pasv (pasv_line a b c d (port / 256) (port % 256))
      ≡ some (join_host_port (dotted a b c d) (show_nat port))
parse_pasv-line a b c d port ha hb hc hd hp =
    parse_pasv-groups _ _ _ _ _ _ _ _ _ _ (found a b c d (port / 256) (port % 256))
      (pasv_host-show_nat a b c d ha hb hc hd)
      (small-show_nat 255 (port / 256) (omega arith) (omega arith))
      (small-show_nat 255 (port % 256) (omega arith) (omega arith))
    ∙ ap (λ n. some (join_host_port (dotted a b c d) (show_nat n))) (omega arith)

-- The line of a reply to EPSV.
abbrev pub epsv_line : ℕ → Bytes
epsv_line port = text "229 Entering Extended Passive Mode (|||" ++ (show_nat port ++ text "|)")

epsv_found : (port : ℕ) → epsv_regex (epsv_line port) ≡ some (show_nat port ∷ [])
unfolding text after_text contains_byte
epsv_found port =
    find_submatch-skip b'(' (text "|||") (b'|' ∷ []) (text "229 Entering Extended Passive Mode ") _
      (contains_byte-Lacks b'(' (text "229 Entering Extended Passive Mode ") refl)
    ∙ find_submatch-here b'(' (text "|||") (b'|' ∷ []) _ _ _ refl
        (match_groups-chain (b'|' ∷ []) (port ∷ []) (b')' ∷ []) (refl, tt) refl)

pub parse_epsv-line : (port : ℕ) → port ≤ 65535 → parse_epsv (epsv_line port) ≡ some (show_nat port)
unfolding parse_epsv
parse_epsv-line port h =
    rw (parse_epsv, epsv_found port, small-show_nat 65535 port h (omega arith)) refl
