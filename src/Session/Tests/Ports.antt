-- ===== src/Session/Tests/Ports.antt =====
-- Searches for a passive port (server/session_transfer.go).
use ftp.Base.{
  ◌≤◌, ◌<◌, ◌%◌, ℕ, Option, none, some, ◌≡◌, ◌≢◌, refl, arith, pos, ◌+◌, ◌==◌, if◌then◌else◌, ℤ,
  negsuc, ◌-◌,
}
use ftp.Session.Address.{try_ports, nth_port}
use ftp.Session.Ports.{passive_search_sound, passive_search_complete, nth_port_below}

-- A range of three ports of which only the last is free.
abbrev listen_3 : ℤ → Option ℕ
listen_3 (pos p) = if p == 12 then some p else none
listen_3 (negsuc _) = none

found_12 : try_ports listen_3 10 3 (pos 0) 3 0 ≡ some 12
unfolding try_ports nth_port
found_12 = refl

passive_search_sound_example : (p : ℕ) × (10 ≤ p) × (p < 10 + 3) × (listen_3 (pos p) ≡ some 12)
passive_search_sound_example =
    passive_search_sound listen_3 10 3 0 (omega arith) (omega arith) (omega arith) 12 found_12

free_12 : listen_3 (pos 12) ≢ none
free_12 h = ground arith

passive_search_complete_example : try_ports listen_3 10 3 (pos 0) 3 0 ≢ none
passive_search_complete_example =
    passive_search_complete listen_3 10 3 0 (omega arith) (omega arith) (omega arith) 12
      (omega arith) (omega arith) free_12

nth_port_below_example : nth_port 5000 10 (negsuc 2) 0 ≡ pos (5000 - 3 % 10)
nth_port_below_example =
    nth_port_below 5000 10 2 (omega arith) (omega arith) (omega arith) (λ h. ground arith)
      (omega arith)
