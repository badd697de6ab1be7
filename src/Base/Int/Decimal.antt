-- ===== src/Base/Int/Decimal.antt =====
-- Decimal numbers: what fmt's %d prints, strconv reads.
use Prim.Native.Nat.{ℕ, zero, suc, ◌+◌, ◌-◌, ◌*◌, ◌/◌, ◌%◌, ◌^◌, ◌≤◌, ◌<◌}
use mathlib.Core.Path.{◌≡◌, refl, ap, ◌∙◌}
use mathlib.Core.Logic.{◌≢◌}
use mathlib.Core.Bool.{true}
use mathlib.Core.Option.{some}
use mathlib.Core.List.{[], ◌∷◌}
use native.Mathlib.Nat.{pow-suc}
use native.Mathlib.Omega.{arith}
use ftp.Base.Tests.{◌==◌, Bool-cases}
use ftp.Base.Lists.{All}
use mathlib.Core.Logic.{inl, inr}
use ftp.Base.Text.{Bytes, is_digit}
use ftp.Base.Int.{
  pos, digits_value, parse_uint, parse_int, digits_onto, show_nat, show_nat_onto, digits_step,
  digits_stop,
}

digit_value :
    (acc n : ℕ) (rest : Bytes)
    → digits_value 10 acc ((b'0' + n % 10) ∷ rest) ≡ digits_value 10 (acc * 10 + n % 10) rest
unfolding digits_value
digit_value acc n rest = ground arith

tenth : (fuel n : ℕ) → n < 10 ^ suc fuel → n / 10 < 10 ^ fuel
tenth fuel n h = omega (arith, pow-suc 10 fuel)

digits_value-digits_onto :
    (fuel n : ℕ) (rest : Bytes)
    → n < 10 ^ fuel
    → digits_value 10 0 (digits_onto fuel n rest) ≡ digits_value 10 n rest
digits_value-digits_onto zero n rest h =
    let e : n ≡ 0 = omega arith in rw (e, digits_stop 0 rest) refl
digits_value-digits_onto (suc fuel) n rest h = elim (Bool-cases (n == 0)) [
  | inl z ↦ let e : n ≡ 0 = ground arith in rw (e, digits_stop (suc fuel) rest) refl
  | inr more ↦
      ap (digits_value 10 0) (digits_step fuel n rest (ground arith))
      ∙ digits_value-digits_onto fuel (n / 10) ((b'0' + n % 10) ∷ rest) (tenth fuel n h)
      ∙ digit_value (n / 10) n rest
      ∙ ap (λ t. digits_value 10 t rest) (omega arith)
]

digits_onto-digits :
    (fuel n : ℕ) (rest : Bytes)
    → All (λ c. is_digit c ≡ true) rest
    → All (λ c. is_digit c ≡ true) (digits_onto fuel n rest)
unfolding digits_onto
digits_onto-digits zero n rest h = h
digits_onto-digits (suc fuel) n rest h =
    ground (arith, digits_onto-digits fuel (n / 10) ((b'0' + n % 10) ∷ rest))

-- The digits of a number, in a form that its proofs can split.
show_nat-zero : show_nat 0 ≡ b'0' ∷ []
unfolding show_nat
show_nat-zero = refl

-- A printed number consists of digits.
pub show_nat-digits : (n : ℕ) → All (λ c. is_digit c ≡ true) (show_nat n)
show_nat-digits n = elim (Bool-cases (n == 0)) [
  | inl z ↦ let e : n ≡ 0 = ground arith in rw (e, show_nat-zero) (refl, tt)
  | inr more ↦ rw (show_nat_onto n (ground arith)) (digits_onto-digits 20 n [] tt)
]

digits_onto-ne-nil : (fuel n : ℕ) (c : ℕ) (rest : Bytes) → digits_onto fuel n (c ∷ rest) ≢ []
unfolding digits_onto
digits_onto-ne-nil zero n c rest = cc
digits_onto-ne-nil (suc fuel) n c rest =
    ground (arith, digits_onto-ne-nil fuel (n / 10) (b'0' + n % 10) (c ∷ rest))

pub show_nat-ne-nil : (n : ℕ) → show_nat n ≢ []
show_nat-ne-nil n = elim (Bool-cases (n == 0)) [
  | inl z ↦ let e : n ≡ 0 = ground arith in rw (e, show_nat-zero) (cc)
  | inr more ↦
      rw (show_nat_onto n (ground arith), digits_step 19 n [] (ground arith))
        (digits_onto-ne-nil 19 (n / 10) _ [])
]

digits_value-show_nat : (n : ℕ) → n < 10 ^ 20 → digits_value 10 0 (show_nat n) ≡ some n
unfolding digits_value
digits_value-show_nat n h = elim (Bool-cases (n == 0)) [
  | inl z ↦ let e : n ≡ 0 = ground arith in rw (e, show_nat-zero) refl
  | inr more ↦ rw (show_nat_onto n (ground arith)) (digits_value-digits_onto 20 n [] h)
]

read_uint :
    (top : ℕ) (s : Bytes) (n : ℕ)
    → s ≢ []
    → digits_value 10 0 s ≡ some n
    → n ≤ top
    → parse_uint 10 top s ≡ some n
unfolding parse_uint
read_uint top [] n h e le = absurd (h refl)
read_uint top (c ∷ s) n h e le = rw (e, parse_uint) (ground arith)

-- strconv.ParseUint reads what %d prints, up to its bound.
pub parse_uint-show_nat :
    (top n : ℕ) → n ≤ top → top < 10 ^ 20 → parse_uint 10 top (show_nat n) ≡ some n
parse_uint-show_nat top n le small =
    read_uint top (show_nat n) n (show_nat-ne-nil n) (digits_value-show_nat n (omega arith)) le

read_plain :
    (s : Bytes) (n : ℕ)
    → s ≢ []
    → All (λ c. is_digit c ≡ true) s
    → parse_uint 10 (2 ^ 63 - 1) s ≡ some n
    → parse_int s ≡ some (pos n)
unfolding parse_int
read_plain [] n h d e = absurd (h refl)
read_plain (c ∷ s) n h (d, ds) e = ground arith

-- strconv.ParseInt reads what %d prints, within 63 bits.
pub parse_int-show_nat : (n : ℕ) → n < 2 ^ 63 → parse_int (show_nat n) ≡ some (pos n)
parse_int-show_nat n h =
    read_plain (show_nat n) n (show_nat-ne-nil n) (show_nat-digits n)
      (parse_uint-show_nat (2 ^ 63 - 1) n (omega arith) (omega arith))
