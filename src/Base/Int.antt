-- ===== src/Base/Int.antt =====
-- Signed integers, and reading numbers as `strconv` does.
pub mod Decimal
use Prim.Native.Nat.{ℕ, zero, suc, ◌+◌, ◌-◌, ◌*◌, ◌/◌, ◌%◌, ◌^◌, ◌≤◌}
use mathlib.Core.Path.{◌≡◌, refl, ◌∙◌}
use mathlib.Core.Logic.{◌≢◌}
use mathlib.Core.Bool.{Bool, false, ◌&&◌}
use mathlib.Core.Option.{Option, none, some}
use mathlib.Core.List.{[], ◌∷◌}
use native.Mathlib.Omega.{arith}
use ftp.Base.Tests.{ltb, leb, ◌==◌, if◌then◌else◌}
use ftp.Base.Text.{Bytes, text}

-- `negsuc n` is -(n + 1).
pub data ℤ : Type 0 where
  pos : ℕ → ℤ
  negsuc : ℕ → ℤ

-- -n
abbrev pub neg_ℕ : ℕ → ℤ
neg_ℕ n = if n == 0 then pos 0 else negsuc (n - 1)

-- 0 < z
abbrev pub is_positive : ℤ → Bool
is_positive (pos n) = ltb 0 n
is_positive (negsuc n) = false

unfoldable pub int_eq : ℤ → ℤ → Bool
int_eq (pos m) (pos n) = m == n
int_eq (negsuc m) (negsuc n) = m == n
int_eq _ _ = false

digits_value : ℕ → ℕ → Bytes → Option ℕ
digits_value base acc [] = some acc
digits_value base acc (c ∷ s) =
    let rest = digits_value base (acc * base + (c - b'0')) s in
    if leb b'0' c && ltb c (b'0' + base) then rest else none

-- strconv.ParseUint for a base up to ten; a value above `top` is out of range
unfoldable pub parse_uint : ℕ → ℕ → Bytes → Option ℕ
unfolding digits_value
parse_uint base top [] = none
parse_uint base top (c ∷ s) = elim (digits_value base 0 (c ∷ s)) [
  | none ↦ none
  | some v ↦ if leb v top then some v else none
]

-- strconv.ParseInt(s, 10, 64) and strconv.Atoi, where `int` has 64 bits
unfoldable pub parse_int : Bytes → Option ℤ
unfolding parse_uint
parse_int [] = none
parse_int (c ∷ s) =
    let plus : Option ℤ = elim (parse_uint 10 (2 ^ 63 - 1) s) [
      | none ↦ none
      | some v ↦ some (pos v)
    ] in
    let minus : Option ℤ = elim (parse_uint 10 (2 ^ 63) s) [
      | none ↦ none
      | some v ↦ some (neg_ℕ v)
    ] in
    let plain : Option ℤ = elim (parse_uint 10 (2 ^ 63 - 1) (c ∷ s)) [
      | none ↦ none
      | some v ↦ some (pos v)
    ] in
    if c == b'+' then plus else if c == b'-' then minus else plain

-- The decimal digits of a number below 10 ^ `fuel`, in front of `rest`.
digits_onto : ℕ → ℕ → Bytes → Bytes
digits_onto zero n rest = rest
digits_onto (suc fuel) n rest =
    let more = digits_onto fuel (n / 10) ((b'0' + n % 10) ∷ rest) in if n == 0 then rest else more

-- fmt's %d: twenty digits are enough for 64 bits
unfoldable pub show_nat : ℕ → Bytes
unfolding digits_onto
show_nat n = if n == 0 then b'0' ∷ [] else digits_onto 20 n []

unfoldable pub show_int : ℤ → Bytes
unfolding show_nat
show_int (pos n) = show_nat n
show_int (negsuc n) = b'-' ∷ show_nat (suc n)

digits_step :
    (fuel n : ℕ) (rest : Bytes)
    → n ≢ 0
    → digits_onto (suc fuel) n rest ≡ digits_onto fuel (n / 10) ((b'0' + n % 10) ∷ rest)
unfolding digits_onto
digits_step fuel n rest h = ground arith

digits_stop : (fuel : ℕ) (rest : Bytes) → digits_onto fuel 0 rest ≡ rest
unfolding digits_onto
digits_stop zero rest = refl
digits_stop (suc fuel) rest = refl

show_nat_onto : (n : ℕ) → n ≢ 0 → show_nat n ≡ digits_onto 20 n []
unfolding show_nat
show_nat_onto n h = ground arith

three_digits :
    (n : ℕ)
    → 100 ≤ n
    → n ≤ 999
    → digits_onto 17
        (n / 10 / 10 / 10)
        ((b'0' + n / 10 / 10 % 10) ∷ (b'0' + n / 10 % 10) ∷ (b'0' + n % 10) ∷ [])
      ≡ (b'0' + n / 100) ∷ (b'0' + n / 10 % 10) ∷ (b'0' + n % 10) ∷ []
three_digits n low high =
    let zero_left : n / 10 / 10 / 10 ≡ 0 = omega arith in
    let first : n / 10 / 10 % 10 ≡ n / 100 = omega arith in rw (zero_left, first) (digits_stop 17 _)

-- A number of three digits, printed and read.
pub show_nat_three :
    (n : ℕ)
    → 100 ≤ n
    → n ≤ 999
    → show_nat n ≡ (b'0' + n / 100) ∷ (b'0' + n / 10 % 10) ∷ (b'0' + n % 10) ∷ []
show_nat_three n low high =
    show_nat_onto n (omega arith)
    ∙ digits_step 19 n [] (omega arith)
    ∙ digits_step 18 (n / 10) _ (omega arith)
    ∙ digits_step 17 (n / 10 / 10) _ (omega arith)
    ∙ three_digits n low high

pub parse_int_three :
    (n : ℕ)
    → 100 ≤ n
    → n ≤ 999
    → parse_int ((b'0' + n / 100) ∷ (b'0' + n / 10 % 10) ∷ (b'0' + n % 10) ∷ []) ≡ some (pos n)
unfolding parse_int
parse_int_three n low high = ground arith

reads_signed :
    (parse_int (text "-42") ≡ some (negsuc 41))
    × (parse_int (text "9223372036854775808") ≡ none)
    × (show_int (negsuc 41) ≡ text "-42")
unfolding parse_int show_int text
reads_signed = (refl, refl, refl)
