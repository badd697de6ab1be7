-- ===== src/Client/Listing/Dates.antt =====
-- What starts with no digit is no date of the DOS format (directory.go).
use ftp.Base.{
  ℕ, Bytes, List, [], ◌∷◌, ◌≡◌, refl, ap, ◌∙◌, arith, false, is_digit, Bool-cases, inl, inr, Bool,
  split-first, split-front, split, contains_byte, if◌then◌else◌, ◌==◌,
}
use ftp.Client.Listing.{is_dos_date, date_parts, is_day, all_between}

-- A first part that is no day.
abbrev NoDay : List Bytes → Type 0
NoDay ps = (g : Bytes) × (rest : List Bytes) × (ps ≡ g ∷ rest) × (is_day g ≡ false)

no_day : (c : ℕ) (g : Bytes) → is_digit c ≡ false → is_day (c ∷ g) ≡ false
unfolding all_between
no_day c g h = ground arith

date_parts-first :
    (g : Bytes) (rest : List Bytes) → is_day g ≡ false → date_parts (g ∷ rest) ≡ false
unfolding date_parts
date_parts-first g [] h = refl
date_parts-first g (x ∷ []) h = refl
date_parts-first g (x ∷ y ∷ []) h = rw h refl
date_parts-first g (x ∷ y ∷ z ∷ r) h = refl

split-NoDay : (b c : ℕ) (s : Bytes) → is_digit c ≡ false → NoDay (split b (c ∷ s))
split-NoDay b c s h = elim (Bool-cases (c == b)) [
  | inl e ↦ ([], split b s, split-front b c s e, refl)
  | inr e ↦ let (g, rest, p) = split-first b c s e in (c ∷ g, rest, p, no_day c g h)
]

date_parts-NoDay : (ps : List Bytes) → NoDay ps → date_parts ps ≡ false
date_parts-NoDay ps (g, rest, e, h) = ap date_parts e ∙ date_parts-first g rest h

both_false :
    (b c x y : Bool) → x ≡ false → y ≡ false → (if b then x else if c then y else false) ≡ false
both_false b c x y hx hy = ground arith

pub is_dos_date-letter : (c : ℕ) (s : Bytes) → is_digit c ≡ false → is_dos_date (c ∷ s) ≡ false
unfolding is_dos_date
is_dos_date-letter c s h =
    both_false (contains_byte b'-' (c ∷ s)) (contains_byte b'/' (c ∷ s)) _ _
      (date_parts-NoDay (split b'-' (c ∷ s)) (split-NoDay b'-' c s h))
      (date_parts-NoDay (split b'/' (c ∷ s)) (split-NoDay b'/' c s h))
