-- ===== src/Base/Text.antt =====
-- Go strings as lists of bytes, with what the program uses of the packages `strings` and `strconv`.
-- Letters are changed in case as ASCII.
pub mod Split
pub mod Words
pub mod Trim
pub mod Blank
use Prim.Native.Nat.{ℕ, zero, suc, ◌+◌, ◌-◌}
use Prim.Native.Char.{code}
use Prim.Native.String.{String}
use mathlib.Core.Path.{◌≡◌, refl, ap, ◌∙◌}
use mathlib.Core.Logic.{◌↔◌}
use mathlib.Core.Bool.{Bool, true, false, ◌&&◌, ◌||◌}
use mathlib.Core.Option.{Option, none, some}
use mathlib.Core.List.{List, [], ◌∷◌, ◌++◌, map, reverse, reverse-append, reverse-reverse}
use native.Mathlib.Omega.{arith}
use ftp.Base.Tests.{leb, ◌==◌, if◌then◌else◌, Bool-cases}
use ftp.Base.Lists.{All, All-reverse}
use mathlib.Core.Logic.{inl, inr}

abbrev pub Bytes : Type 0
Bytes = List ℕ

-- The bytes of an ASCII literal.
unfoldable pub text : String → Bytes
text String.[] = []
text (String.◌∷◌ c s) = code c ∷ text s

abbrev pub cr : ℕ
cr = 13

abbrev pub lf : ℕ
lf = 10

abbrev pub space : ℕ
space = b' '

unfoldable pub bytes_eq : Bytes → Bytes → Bool
bytes_eq [] [] = true
bytes_eq (x ∷ xs) (y ∷ ys) = x == y && bytes_eq xs ys
bytes_eq _ _ = false

pub bytes_eq_iff : (a b : Bytes) → (bytes_eq a b ≡ true) ↔ (a ≡ b)
unfolding bytes_eq
bytes_eq_iff (x ∷ a) (y ∷ b) = ground (arith, bytes_eq_iff a b)
bytes_eq_iff _ _ = ground arith

pub bytes_eq_refl : (a : Bytes) → bytes_eq a a ≡ true
bytes_eq_refl a = (bytes_eq_iff a a).1 refl

abbrev pub is_empty : Bytes → Bool
is_empty [] = true
is_empty (_ ∷ _) = false

abbrev pub is_digit : ℕ → Bool
is_digit c = leb b'0' c && leb c b'9'

upper : ℕ → ℕ
upper c = if leb b'a' c && leb c b'z' then c - 32 else c

-- strings.ToUpper
unfoldable pub to_upper : Bytes → Bytes
unfolding upper
to_upper = map upper

lower : ℕ → ℕ
lower c = if leb b'A' c && leb c b'Z' then c + 32 else c

-- strings.ToLower
unfoldable pub to_lower : Bytes → Bytes
unfolding lower
to_lower = map lower

-- strings.HasPrefix(s, prefix)
unfoldable pub has_prefix : Bytes → Bytes → Bool
has_prefix s [] = true
has_prefix [] (p ∷ ps) = false
has_prefix (c ∷ s) (p ∷ ps) = c == p && has_prefix s ps

-- strings.HasSuffix(s, c) for one byte
unfoldable pub ends_with : ℕ → Bytes → Bool
ends_with b [] = false
ends_with b (c ∷ []) = c == b
ends_with b (c ∷ d ∷ s) = ends_with b (d ∷ s)

-- strings.Contains(s, c) for one byte
unfoldable pub contains_byte : ℕ → Bytes → Bool
contains_byte b [] = false
contains_byte b (c ∷ s) = c == b || contains_byte b s

drop_while : (ℕ → Bool) → Bytes → Bytes
drop_while p [] = []
drop_while p (c ∷ s) = let rest = drop_while p s in if p c then rest else c ∷ s

-- strings.TrimRight with the set of bytes `p`
unfoldable pub trim_right : (ℕ → Bool) → Bytes → Bytes
unfolding drop_while
trim_right p s = reverse (drop_while p (reverse s))

abbrev pub is_eol : ℕ → Bool
is_eol c = c == cr || c == lf

-- White space in ASCII.
abbrev pub is_space : ℕ → Bool
is_space c = c == space || leb 9 c && leb c 13

-- The white space of package unicode beyond ASCII, in UTF-8: U+0085 and U+00A0, and U+1680, U+2000 to
-- U+200A, U+2028, U+2029, U+202F, U+205F and U+3000.
abbrev pub two_space : ℕ → ℕ → Bool
two_space a b = a == 194 && (b == 133 || b == 160)

abbrev pub three_space : ℕ → ℕ → ℕ → Bool
three_space a b c =
    a == 225 && (b == 154 && c == 128)
    || (a == 226 && (b == 128 && (leb 128 c && leb c 138 || (c == 168 || (c == 169 || c == 175))))
        || (a == 226 && (b == 129 && c == 159) || a == 227 && (b == 128 && c == 128)))

-- The bytes of the white space that a text starts with, 0 if it starts with none. No byte that such a
-- character starts with stands inside another one, so this finds white space from any byte on.
unfoldable pub space_width : Bytes → ℕ
space_width [] = 0
space_width (a ∷ []) = if is_space a then 1 else 0
space_width (a ∷ b ∷ []) = if is_space a then 1 else if two_space a b then 2 else 0
space_width (a ∷ b ∷ c ∷ s) =
    if is_space a then 1 else if two_space a b then 2 else if three_space a b c then 3 else 0

-- The same at the end of a text, which is read backwards.
unfoldable pub end_width : Bytes → ℕ
end_width [] = 0
end_width (c ∷ []) = if is_space c then 1 else 0
end_width (c ∷ b ∷ []) = if is_space c then 1 else if two_space b c then 2 else 0
end_width (c ∷ b ∷ a ∷ s) =
    if is_space c then 1 else if two_space b c then 2 else if three_space a b c then 3 else 0

-- Without the characters in front whose width is not 0; first so many bytes are passed over.
unfoldable pub drop_run : (Bytes → ℕ) → ℕ → Bytes → Bytes
drop_run w k [] = []
drop_run w zero (c ∷ s) = elim (w (c ∷ s)) [ zero ↦ c ∷ s | suc k ↦ drop_run w k s ]
drop_run w (suc k) (c ∷ s) = drop_run w k s

-- strings.TrimSpace
unfoldable pub trim_space : Bytes → Bytes
unfolding drop_run
trim_space s = drop_run space_width 0 (reverse (drop_run end_width 0 (reverse s)))

-- strings.Cut at one byte; `none` when it does not occur
unfoldable pub cut : ℕ → Bytes → Option (Bytes × Bytes)
cut b [] = none
cut b (c ∷ s) =
    let rest : Option (Bytes × Bytes) = elim (cut b s) [
      | none ↦ none
      | some (x, y) ↦ some (c ∷ x, y)
    ] in
    if c == b then some ([], s) else rest

-- `split_onto` carries the current part, reversed.
split_onto : ℕ → Bytes → Bytes → List Bytes
split_onto b part [] = reverse part ∷ []
split_onto b part (c ∷ s) = elim (c == b) [
  | true ↦ reverse part ∷ split_onto b [] s
  | false ↦ split_onto b (c ∷ part) s
]

-- strings.Split at one byte
unfoldable pub split : ℕ → Bytes → List Bytes
unfolding split_onto
split b s = split_onto b [] s

split_onto_here :
    (b c : ℕ) (part s : Bytes)
    → c == b ≡ true
    → split_onto b part (c ∷ s) ≡ reverse part ∷ split_onto b [] s
unfolding split_onto
split_onto_here b c part s e = ground arith

split_onto_later :
    (b c : ℕ) (part s : Bytes)
    → c == b ≡ false
    → split_onto b part (c ∷ s) ≡ split_onto b (c ∷ part) s
unfolding split_onto
split_onto_later b c part s e = ground arith

-- No part of a split holds the byte.
split_onto-free :
    (b : ℕ) (part s : Bytes)
    → All (λ c. c == b ≡ false) part
    → All (All (λ c. c == b ≡ false)) (split_onto b part s)
unfolding split_onto
split_onto-free b part [] h = (All-reverse _ part h, tt)
split_onto-free b part (c ∷ s) h = elim (Bool-cases (c == b)) [
  | inl e ↦ rw (split_onto_here b c part s e) (All-reverse _ part h, split_onto-free b [] s tt)
  | inr e ↦ rw (split_onto_later b c part s e) (split_onto-free b (c ∷ part) s (e, h))
]

pub split-free : (b : ℕ) (s : Bytes) → All (All (λ c. c == b ≡ false)) (split b s)
unfolding split
split-free b s = split_onto-free b [] s tt

-- The current field is reversed; an empty one is not recorded.
close_field : Bytes → List Bytes → List Bytes
close_field [] rest = rest
close_field (c ∷ s) rest = reverse (c ∷ s) ∷ rest

-- The bytes of a white space character after its first are passed over.
fields_onto : ℕ → Bytes → Bytes → List Bytes
unfolding space_width
fields_onto k part [] = close_field part []
fields_onto zero part (c ∷ s) = elim (space_width (c ∷ s)) [
  | zero ↦ fields_onto zero (c ∷ part) s
  | suc k ↦ close_field part (fields_onto k [] s)
]
fields_onto (suc k) part (c ∷ s) = fields_onto k part s

-- strings.Fields
unfoldable pub fields : Bytes → List Bytes
unfolding fields_onto close_field
fields s = fields_onto 0 [] s

-- strings.Join
unfoldable pub join : Bytes → List Bytes → Bytes
join sep [] = []
join sep (p ∷ []) = p
join sep (p ∷ q ∷ ps) = p ++ (sep ++ join sep (q ∷ ps))

drop_while-none : (p : ℕ → Bool) (s : Bytes) → All (λ c. p c ≡ false) s → drop_while p s ≡ s
unfolding drop_while
drop_while-none p [] h = refl
drop_while-none p (c ∷ s) h = rw (h.0) refl

-- Trimming takes the end of a line away, and no more.
pub trim_line :
    (line : Bytes)
    → All (λ c. is_eol c ≡ false) line
    → trim_right is_eol (line ++ cr ∷ lf ∷ []) ≡ line
unfolding trim_right drop_while
trim_line line h =
    ap (λ t. reverse (drop_while is_eol t)) (reverse-append line (cr ∷ lf ∷ []))
    ∙ ap reverse (drop_while-none is_eol (reverse line) (All-reverse _ line h))
    ∙ reverse-reverse line
