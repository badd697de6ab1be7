-- ===== src/Ratelimit/Chunks.antt =====
-- The writer's loop (internal/ratelimit/ratelimit.go): what it writes, and what it takes for that.
use ftp.Base.{
  ℕ, zero, suc, ◌+◌, ◌-◌, ◌≤◌, ◌<◌, List, [], ◌∷◌, ◌≡◌, refl, arith, All, length, ltb, ◌==◌,
  if◌then◌else◌, Bytes, take, drop, false, Bool-cases, inl, inr, ◌∙◌,
}
use ftp.Ratelimit.{Written, write_chunk, write_loop, write}

length-drop : (n : ℕ) (p : Bytes) → length (drop n p) ≡ length p - n
length-drop zero p = omega arith
length-drop (suc n) [] = omega arith
length-drop (suc n) (c ∷ p) = omega (arith, length-drop n p)

length-take : (n : ℕ) (p : Bytes) → n ≤ length p → length (take n p) ≡ n
length-take zero p h = refl
length-take (suc n) [] h = absurd (omega arith)
length-take (suc n) (c ∷ p) h = omega (arith, length-take n p)

abbrev pub sum : List ℕ → ℕ
sum [] = 0
sum (n ∷ ns) = n + sum ns

-- A writer below that takes all it is given.
abbrev pub IsHonest : (Bytes → Written) → Type 0
IsHonest sink = (p : Bytes) → ((sink p).count ≡ length p) × ((sink p).failed ≡ false)

abbrev chunk_size : Bytes → ℕ
chunk_size p = if ltb write_chunk (length p) then write_chunk else length p

-- A chunk is not empty, and fits.
chunk_facts :
    (p : Bytes)
    → length p == 0 ≡ false
    → (0 < chunk_size p) × (chunk_size p ≤ write_chunk) × (chunk_size p ≤ length p)
chunk_facts p e = ground arith

rest_length : (p : Bytes) → length (drop (chunk_size p) p) ≡ length p - chunk_size p
rest_length p = length-drop (chunk_size p) p

module _ (sink : Bytes → Written) (honest : IsHonest sink) where
  count-chunk : (p : Bytes) → (sink (take (chunk_size p) p)).count ≡ chunk_size p
  count-chunk p = (honest (take (chunk_size p) p)).0 ∙ length-take (chunk_size p) p (ground arith)

  write_loop-step :
      (fuel : ℕ) (p : Bytes)
      → length p == 0 ≡ false
      → let more = write_loop sink fuel (drop (chunk_size p) p) in
        write_loop sink (suc fuel) p ≡ (chunk_size p ∷ more.0, chunk_size p + more.1)
  unfolding write_loop
  write_loop-step fuel p h =
      rw (write_loop, count-chunk p, h, (honest (take (chunk_size p) p)).1) refl

  write_loop-whole :
      (fuel : ℕ) (p : Bytes)
      → length p < fuel
      → let r = write_loop sink fuel p in
        (r.1 ≡ length p) × (sum r.0 ≡ length p) × All (λ n. n ≤ write_chunk) r.0
  unfolding write_loop
  write_loop-whole zero p h = absurd (omega arith)
  write_loop-whole (suc fuel) p h = elim (Bool-cases (length p == 0)) [
    | inl e ↦ rw e (ground arith, ground arith, tt)
    | inr e ↦
        let ih =
          write_loop-whole fuel (drop (chunk_size p) p)
            (omega (arith, rest_length p, chunk_facts p e)) in
        rw (write_loop-step fuel p e) (
          omega (arith, ih.0, rest_length p, chunk_facts p e),
          omega (arith, ih.1, rest_length p, chunk_facts p e),
          ((chunk_facts p e).1, ih.2),
        )
  ]

  -- Into a writer that takes all it is given, `Write` writes the whole slice and then ends; it takes
  -- tokens for as many bytes, in calls for at most 64 KiB each.
  pub write_whole :
      (p : Bytes)
      → let r = write sink p in
        (r.1 ≡ length p) × (sum r.0 ≡ length p) × All (λ n. n ≤ write_chunk) r.0
  unfolding write
  write_whole p = write_loop-whole (suc (length p)) p (omega arith)
