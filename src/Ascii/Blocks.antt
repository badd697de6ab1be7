-- ===== src/Ascii/Blocks.antt =====
-- The blocks that the readers of server/ascii.go copy: the bytes before the next LF or CR.
use ftp.Base.{
  ℕ, zero, suc, ◌-◌, ◌≤◌, [], ◌∷◌, ◌++◌, ◌≡◌, ◌≢◌, ◌⊎◌, inl, inr, refl, arith, Bytes, ◌==◌, length,
  Bool-cases,
}
use ftp.Ascii.{block}

pub block-append : (b room : ℕ) (s : Bytes) → (block b room s).0 ++ (block b room s).1 ≡ s
unfolding block
block-append b zero s = refl
block-append b (suc room) [] = refl
block-append b (suc room) (c ∷ s) = ground (arith, block-append b room s)

pub block-fits : (b room : ℕ) (s : Bytes) → length (block b room s).0 ≤ room
unfolding block
block-fits b zero s = omega arith
block-fits b (suc room) [] = omega arith
block-fits b (suc room) (c ∷ s) = ground (arith, block-fits b room s)

-- With room left, a block ends where the bytes end, or at its byte.
pub block-stops :
    (b room : ℕ) (s : Bytes)
    → room - length (block b room s).0 ≢ 0
    → ((block b room s).1 ≡ []) ⊎ ((t : Bytes) × ((block b room s).1 ≡ b ∷ t))
unfolding block
block-stops b zero s h = absurd (h refl)
block-stops b (suc room) [] h = inl refl
block-stops b (suc room) (c ∷ s) h = elim (Bool-cases (c == b)) [
  | inl e ↦ inr (s, ground arith)
  | inr e ↦ ground (arith, block-stops b room s)
]

pub zero-nonempty : (room : ℕ) (b : Bytes) → suc room - length b ≡ 0 → b ≢ []
zero-nonempty room [] h = absurd (omega (arith, h))
zero-nonempty room (c ∷ b) h = λ e. cc

pub both-empty : (x y z : Bytes) (c : ℕ) → x ++ y ≡ c ∷ z → y ≡ [] → x ≢ []
both-empty [] y z c h e = λ _. absurd (cc)
both-empty (a ∷ x) y z c h e = λ q. cc
