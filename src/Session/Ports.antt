-- ===== src/Session/Ports.antt =====
-- The search for a passive port (`listenPassive` in server/session_transfer.go).
use ftp.Base.{
  ℕ, zero, suc, ◌+◌, ◌-◌, ◌%◌, ◌^◌, ◌≤◌, ◌<◌, Option, none, some, ◌≡◌, ◌≢◌, sym, ap, arith, ℤ, pos,
  negsuc, Option-cases, inl, inr, ◌∙◌,
}
use native.Mathlib.Nat.{
  mod-lt, mod-eq_of_lt, mod-add-mod, add-mod_right, add-zero, zero-add, add-suc, suc-add,
}
use native.Mathlib.Numerals.{add-one}
use native.Mathlib.Decide.{dec_lt}
use ftp.Session.Address.{word32, int32, add32, rem32, nth_port, try_ports}

-- With no wrap-around, round `i` tries the port at distance (start + i) % n.
pub nth_port_lem :
    (lo n a i : ℕ)
    → 0 < n
    → a + i < 2 ^ 31
    → lo + n ≤ 2 ^ 31
    → nth_port lo n (pos a) i ≡ pos (lo + (a + i) % n)
unfolding nth_port word32 int32 add32 rem32
nth_port_lem lo n a i h k m = ground (arith, mod-lt (a + i) h)

-- For a counter value below zero, which the counter of 32 bits takes after 2 ^ 31 listeners, the first
-- port tried lies below the range, at the remainder's distance, if that is not zero and not above the
-- range's start.
pub nth_port_below :
    (lo n k : ℕ)
    → 0 < n
    → k < 2 ^ 31
    → lo < 2 ^ 31
    → suc k % n ≢ 0
    → suc k % n ≤ lo
    → nth_port lo n (negsuc k) 0 ≡ pos (lo - suc k % n)
unfolding nth_port word32 int32 add32 rem32
nth_port_below lo n k h b c z l = ground arith

-- Some round below `n` meets every distance.
pub round_of : (n a d : ℕ) → d < n → (j : ℕ) × (j < n) × ((a + j) % n ≡ d)
round_of n a d h = elim (dec_lt d (a % n)) [
  | yes p ↦ (
    d + n - a % n,
    omega (arith, mod-lt a {m = n} (omega arith)),
    sym (mod-add-mod a n _)
        ∙ ap (λ (x : ℕ). x % n) (omega (arith, mod-lt a {m = n} (omega arith)))
        ∙ add-mod_right d n
        ∙ mod-eq_of_lt h,
  )
  | no p ↦ (
    d - a % n,
    omega arith,
    sym (mod-add-mod a n _) ∙ ap (λ (x : ℕ). x % n) (omega arith) ∙ mod-eq_of_lt h,
  )
]

module _ (listen : ℤ → Option ℕ) (lo n a : ℕ) (room : 0 < n) (fits : lo + n ≤ 2 ^ 31) where
  try_ports_sound :
      (rounds i l : ℕ)
      → a + i + rounds ≤ 2 ^ 31
      → try_ports listen lo n (pos a) rounds i ≡ some l
      → (p : ℕ) × (lo ≤ p) × (p < lo + n) × (listen (pos p) ≡ some l)
  unfolding try_ports
  try_ports_sound zero i l b h = cc
  try_ports_sound (suc r) i l b h = elim (Option-cases (listen (nth_port lo n (pos a) i))) [
    | inl closed ↦ try_ports_sound r (i + 1) l (omega arith) (ground arith)
    | inr (m, open_) ↦ (
      lo + (a + i) % n,
      omega arith,
      omega (arith, mod-lt (a + i) room),
      ground (arith, nth_port_lem lo n a i room (omega arith) fits),
    )
  ]

  try_ports_complete :
      (rounds i j : ℕ)
      → a + i + rounds ≤ 2 ^ 31
      → j < rounds
      → listen (pos (lo + (a + (i + j)) % n)) ≢ none
      → try_ports listen lo n (pos a) rounds i ≢ none
  unfolding try_ports
  try_ports_complete zero i j b h free e = elim h [ ]
  try_ports_complete (suc r) i zero b h free e =
      free (ground (arith, nth_port_lem lo n a i room (omega arith) fits, add-zero i))
  try_ports_complete (suc r) i (suc j) b h free e =
      try_ports_complete r (i + 1) j (omega arith) (omega arith)
        (λ q. free (rw (add-suc, ← suc-add, ← add-one) q)) (ground arith)

  -- With a counter that does not overflow: the port of the listener that the search returns lies in
  -- the range, and a listener was opened on it.
  pub passive_search_sound :
      a + n ≤ 2 ^ 31
      → (l : ℕ) → try_ports listen lo n (pos a) n 0 ≡ some l
      → (p : ℕ) × (lo ≤ p) × (p < lo + n) × (listen (pos p) ≡ some l)
  passive_search_sound b l = try_ports_sound n 0 l (omega arith)

  -- With a counter that does not overflow: the search finds a listener if any port of the range is
  -- free.
  pub passive_search_complete :
      a + n ≤ 2 ^ 31
      → (p : ℕ) → lo ≤ p
      → p < lo + n
      → listen (pos p) ≢ none
      → try_ports listen lo n (pos a) n 0 ≢ none
  passive_search_complete b p low high free =
      let (j, jn, at) = round_of n a (p - lo) (omega arith) in
      try_ports_complete n 0 j (omega arith) jn (λ q.
        let here : lo + (a + (0 + j)) % n ≡ p = rw zero-add (omega (arith, at)) in
        free (rw here at q))
