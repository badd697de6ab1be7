-- ===== src/Base/Text/Blank.antt =====
-- Texts of white space only.
use Prim.Native.Nat.{ℕ}
use mathlib.Core.Path.{◌≡◌, refl, ◌∙◌}
use mathlib.Core.Bool.{true}
use mathlib.Core.List.{List, [], ◌∷◌, ◌++◌}
use native.Mathlib.Omega.{arith}
use ftp.Base.Lists.{All}
use ftp.Base.Text.{
  Bytes, is_space, two_space, three_space, space_width, fields, fields_onto, close_field,
}

-- A white space character in UTF-8.
pub data White : Bytes → Type 0 where
  one_byte : (a : ℕ) → is_space a ≡ true → White (a ∷ [])
  two_bytes : (a b : ℕ) → two_space a b ≡ true → White (a ∷ b ∷ [])
  three_bytes : (a b c : ℕ) → three_space a b c ≡ true → White (a ∷ b ∷ c ∷ [])

abbrev pub all_of : List Bytes → Bytes
all_of [] = []
all_of (r ∷ rs) = r ++ all_of rs

width_one : (a : ℕ) (s : Bytes) → is_space a ≡ true → space_width (a ∷ s) ≡ 1
unfolding space_width
width_one a [] h = ground arith
width_one a (b ∷ []) h = ground arith
width_one a (b ∷ c ∷ s) h = ground arith

width_two : (a b : ℕ) (s : Bytes) → two_space a b ≡ true → space_width (a ∷ b ∷ s) ≡ 2
unfolding space_width
width_two a b [] h = ground arith
width_two a b (c ∷ s) h = ground arith

width_three : (a b c : ℕ) (s : Bytes) → three_space a b c ≡ true → space_width (a ∷ b ∷ c ∷ s) ≡ 3
unfolding space_width
width_three a b c s h = ground arith

fields_onto-White :
    {r : Bytes} → White r → (s : Bytes) → fields_onto 0 [] (r ++ s) ≡ fields_onto 0 [] s
unfolding fields_onto close_field
fields_onto-White (one_byte a h) s = rw (fields_onto, width_one a s h) refl
fields_onto-White (two_bytes a b h) s = rw (fields_onto, width_two a b s h) refl
fields_onto-White (three_bytes a b c h) s = rw (fields_onto, width_three a b c s h) refl

-- White space has no fields.
pub fields-White : (rs : List Bytes) → All White rs → fields (all_of rs) ≡ []
unfolding fields fields_onto close_field
fields-White [] h = refl
fields-White (r ∷ rs) (h, hs) = fields_onto-White h (all_of rs) ∙ fields-White rs hs
