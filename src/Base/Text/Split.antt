-- ===== src/Base/Text/Split.antt =====
-- Splitting what was joined.
use Prim.Native.Nat.{ℕ}
use mathlib.Core.Path.{◌≡◌, refl, sym, ap, ◌∙◌}
use mathlib.Core.Logic.{inl, inr}
use mathlib.Core.Bool.{false, true}
use mathlib.Core.Option.{some, none}
use mathlib.Core.List.{
  List, [], ◌∷◌, ◌++◌, reverse, reverse-cons, reverse-append, reverse-reverse, append-nil,
  append_assoc,
}
use native.Mathlib.Omega.{arith}
use ftp.Base.Tests.{◌==◌, Bool-cases}
use ftp.Base.Lists.{All, All-append}
use ftp.Base.Text.{
  Bytes, split, split_onto, split_onto_here, split_onto_later, cut, join, contains_byte,
}

-- A text that does not hold the byte.
abbrev pub Lacks : ℕ → Bytes → Type 0
Lacks b = All (λ c. c == b ≡ false)

pub contains_byte-Lacks : (b : ℕ) (s : Bytes) → contains_byte b s ≡ false → Lacks b s
unfolding contains_byte
contains_byte-Lacks b [] h = tt
contains_byte-Lacks b (c ∷ s) h = ground (arith, contains_byte-Lacks b s)

pub self_eq : (b : ℕ) → b == b ≡ true
self_eq b = ground arith

split_onto-part :
    (b : ℕ) (part g s : Bytes)
    → Lacks b g
    → split_onto b part (g ++ s) ≡ split_onto b (reverse g ++ part) s
split_onto-part b part [] s h = refl
split_onto-part b part (c ∷ g) s h =
    split_onto_later b c part (g ++ s) h.0
    ∙ split_onto-part b (c ∷ part) g s h.1
    ∙ ap (λ t. split_onto b t s)
        (rw (reverse-cons c g) (sym (append_assoc (reverse g) (c ∷ []) part)))

-- The part before the first such byte comes first.
pub split-part : (b : ℕ) (g s : Bytes) → Lacks b g → split b (g ++ b ∷ s) ≡ g ∷ split b s
unfolding split
split-part b g s h =
    split_onto-part b [] g (b ∷ s) h
    ∙ split_onto_here b b (reverse g ++ []) s (self_eq b)
    ∙ ap (λ t. t ∷ split b s) (ap reverse (append-nil (reverse g)) ∙ reverse-reverse g)

-- A text without the byte is one part.
pub split-Lacks : (b : ℕ) (g : Bytes) → Lacks b g → split b g ≡ g ∷ []
unfolding split split_onto
split-Lacks b g h =
    ap (split_onto b []) (sym (append-nil g))
    ∙ split_onto-part b [] g [] h
    ∙ ap (λ t. t ∷ []) (ap reverse (append-nil (reverse g)) ∙ reverse-reverse g)

-- What was joined at a byte that the parts lack, is split into them.
pub split-join :
    (b : ℕ) (p : Bytes) (ps : List Bytes)
    → Lacks b p
    → All (Lacks b) ps
    → split b (join (b ∷ []) (p ∷ ps)) ≡ p ∷ ps
unfolding join
split-join b p [] h hs = split-Lacks b p h
split-join b p (q ∷ ps) h (hq, hs) =
    split-part b p (join (b ∷ []) (q ∷ ps)) h ∙ ap (λ t. p ∷ t) (split-join b q ps hq hs)

cut_later :
    (b c : ℕ) (s x y : Bytes)
    → c == b ≡ false
    → cut b s ≡ some (x, y)
    → cut b (c ∷ s) ≡ some (c ∷ x, y)
unfolding cut
cut_later b c s x y e h = rw (e, h) refl

-- The first such byte is where a text is cut.
pub cut-part : (b : ℕ) (g s : Bytes) → Lacks b g → cut b (g ++ b ∷ s) ≡ some (g, s)
unfolding cut
cut-part b [] s h = rw (self_eq b) refl
cut-part b (c ∷ g) s h = cut_later b c (g ++ b ∷ s) g s h.0 (cut-part b g s h.1)

pub cut-Lacks : (b : ℕ) (g : Bytes) → Lacks b g → cut b g ≡ none
unfolding cut
cut-Lacks b [] h = refl
cut-Lacks b (c ∷ g) h = rw (h.0, cut-Lacks b g h.1) refl

pub Lacks-append : (b : ℕ) (g s : Bytes) → Lacks b g → Lacks b s → Lacks b (g ++ s)
Lacks-append b g s h k = All-append _ g s h k

split_onto-first :
    (b c : ℕ) (part s : Bytes)
    → (g : Bytes) × (rest : List Bytes) × (split_onto b (part ++ c ∷ []) s ≡ (c ∷ g) ∷ rest)
unfolding split_onto
split_onto-first b c part [] = (reverse part, [], ap (λ t. t ∷ []) (reverse-append part (c ∷ [])))
split_onto-first b c part (d ∷ s) = elim (Bool-cases (d == b)) [
  | inl e ↦ (
    reverse part,
    split_onto b [] s,
    split_onto_here b d (part ++ c ∷ []) s e
        ∙ ap (λ t. t ∷ split_onto b [] s) (reverse-append part (c ∷ [])),
  )
  | inr e ↦
      let (g, rest, p) = split_onto-first b c (d ∷ part) s in
      (g, rest, split_onto_later b d (part ++ c ∷ []) s e ∙ p)
]

-- The first part starts with the first byte, if that is not the separator.
pub split-first :
    (b c : ℕ) (s : Bytes)
    → c == b ≡ false
    → (g : Bytes) × (rest : List Bytes) × (split b (c ∷ s) ≡ (c ∷ g) ∷ rest)
unfolding split
split-first b c s e =
    let (g, rest, p) = split_onto-first b c [] s in (g, rest, split_onto_later b c [] s e ∙ p)

-- A separator in front ends an empty part.
pub split-front : (b c : ℕ) (s : Bytes) → c == b ≡ true → split b (c ∷ s) ≡ [] ∷ split b s
unfolding split
split-front b c s e = split_onto_here b c [] s e

split_onto-cons :
    (b : ℕ) (part s : Bytes) → (p : Bytes) × (ps : List Bytes) × (split_onto b part s ≡ p ∷ ps)
unfolding split_onto
split_onto-cons b part [] = (reverse part, [], refl)
split_onto-cons b part (c ∷ s) = elim (Bool-cases (c == b)) [
  | inl e ↦ (reverse part, split_onto b [] s, split_onto_here b c part s e)
  | inr e ↦
      let (p, ps, q) = split_onto-cons b (c ∷ part) s in (p, ps, split_onto_later b c part s e ∙ q)
]

-- A split has a part.
pub split-cons : (b : ℕ) (s : Bytes) → (p : Bytes) × (ps : List Bytes) × (split b s ≡ p ∷ ps)
unfolding split
split-cons b s = split_onto-cons b [] s
