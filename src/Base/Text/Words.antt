-- ===== src/Base/Text/Words.antt =====
-- Words, and texts that are words with one space between them.
use Prim.Native.Nat.{ℕ}
use mathlib.Core.Path.{◌≡◌, refl, sym, ap, ◌∙◌}
use mathlib.Core.Logic.{◌≢◌}
use mathlib.Core.Bool.{Bool, false, ◌||◌}
use mathlib.Core.List.{
  List, [], ◌∷◌, ◌++◌, reverse, reverse-cons, reverse-reverse, append-nil, append_assoc,
}
use ftp.Base.Lists.{All}
use native.Mathlib.Omega.{arith}
use ftp.Base.Tests.{◌==◌}
use ftp.Base.Text.{Bytes, space, is_space, space_width, fields, fields_onto, close_field, join}

-- No white space starts at any byte.
abbrev pub Spaceless : Bytes → Type 0
Spaceless [] = Unit
Spaceless (c ∷ s) = (space_width (c ∷ s) ≡ 0) × Spaceless s

-- Not empty, and without white space.
abbrev pub IsWord : Bytes → Type 0
IsWord w = (w ≢ []) × Spaceless w

-- Bytes that white space may start with.
abbrev pub may_space : ℕ → Bool
may_space c = is_space c || (c == 194 || (c == 225 || (c == 226 || c == 227)))

pub space_width-plain : (c : ℕ) (s : Bytes) → may_space c ≡ false → space_width (c ∷ s) ≡ 0
unfolding space_width
space_width-plain c [] h = ground arith
space_width-plain c (b ∷ []) h = ground arith
space_width-plain c (b ∷ a ∷ s) h = ground arith

pub plain-Spaceless : (s : Bytes) → All (λ c. may_space c ≡ false) s → Spaceless s
plain-Spaceless [] h = tt
plain-Spaceless (c ∷ s) h = (space_width-plain c s h.0, plain-Spaceless s h.1)

-- A space after a text starts no white space before it.
pub space_width-space :
    (c : ℕ) (t s : Bytes) → space_width (c ∷ t) ≡ 0 → space_width (c ∷ (t ++ space ∷ s)) ≡ 0
unfolding space_width
space_width-space c [] [] h = ground arith
space_width-space c [] (a ∷ s) h = ground arith
space_width-space c (b ∷ []) s h = ground arith
space_width-space c (b ∷ a ∷ t) s h = ground arith

-- No white space starts in the first text when the second follows it.
abbrev SpacelessBefore : Bytes → Bytes → Type 0
SpacelessBefore t [] = Unit
SpacelessBefore t (c ∷ w) = (space_width (c ∷ (w ++ t)) ≡ 0) × SpacelessBefore t w

SpacelessBefore-nil : (w : Bytes) → Spaceless w → SpacelessBefore [] w
SpacelessBefore-nil [] h = tt
SpacelessBefore-nil (c ∷ w) (h, hs) =
    (ap (λ t. space_width (c ∷ t)) (append-nil w) ∙ h, SpacelessBefore-nil w hs)

SpacelessBefore-space : (w s : Bytes) → Spaceless w → SpacelessBefore (space ∷ s) w
SpacelessBefore-space [] s h = tt
SpacelessBefore-space (c ∷ w) s (h, hs) = (space_width-space c w s h, SpacelessBefore-space w s hs)

fields_onto-letter :
    (part s : Bytes) (c : ℕ)
    → space_width (c ∷ s) ≡ 0
    → fields_onto 0 part (c ∷ s) ≡ fields_onto 0 (c ∷ part) s
unfolding fields_onto
fields_onto-letter part s c e = rw (fields_onto, e) refl

fields_onto-word :
    (part w s : Bytes)
    → SpacelessBefore s w
    → fields_onto 0 part (w ++ s) ≡ fields_onto 0 (reverse w ++ part) s
fields_onto-word part [] s h = refl
fields_onto-word part (c ∷ w) s (h, hs) =
    fields_onto-letter part (w ++ s) c h
    ∙ fields_onto-word (c ∷ part) w s hs
    ∙ ap (λ t. fields_onto 0 t s)
        (rw (reverse-cons c w) (sym (append_assoc (reverse w) (c ∷ []) part)))

close_field-ne_nil :
    (r : Bytes) (rest : List Bytes) → r ≢ [] → close_field r rest ≡ reverse r ∷ rest
unfolding close_field
close_field-ne_nil [] rest ne = absurd (ne refl)
close_field-ne_nil (c ∷ r) rest ne = refl

pub reverse-ne-nil : (w : Bytes) → w ≢ [] → reverse w ≢ []
reverse-ne-nil w ne e = ne (sym (reverse-reverse w) ∙ ap reverse e)

close_field-word :
    (w : Bytes) (rest : List Bytes) → w ≢ [] → close_field (reverse w ++ []) rest ≡ w ∷ rest
close_field-word w rest ne = rw (append-nil (reverse w)) (
    close_field-ne_nil (reverse w) rest (reverse-ne-nil w ne)
    ∙ ap (λ t. t ∷ rest) (reverse-reverse w))

fields_onto-nil : (part : Bytes) → fields_onto 0 part [] ≡ close_field part []
unfolding fields_onto
fields_onto-nil part = refl

pub space_width-here : (s : Bytes) → space_width (space ∷ s) ≡ 1
unfolding space_width
space_width-here [] = refl
space_width-here (a ∷ []) = refl
space_width-here (a ∷ b ∷ s) = refl

fields_onto-space :
    (part s : Bytes) → fields_onto 0 part (space ∷ s) ≡ close_field part (fields_onto 0 [] s)
unfolding fields_onto
fields_onto-space part s = rw (fields_onto, space_width-here s) refl

fields_onto-last : (w : Bytes) → IsWord w → fields_onto 0 [] w ≡ w ∷ []
fields_onto-last w (ne, h) =
    ap (fields_onto 0 []) (sym (append-nil w))
    ∙ fields_onto-word [] w [] (SpacelessBefore-nil w h)
    ∙ fields_onto-nil (reverse w ++ [])
    ∙ close_field-word w [] ne

close_nothing : close_field [] [] ≡ []
unfolding close_field
close_nothing = refl

-- strings.Fields gives back the words that were joined.
pub fields-join : (ws : List Bytes) → All IsWord ws → fields (join (space ∷ []) ws) ≡ ws
unfolding fields join
fields-join [] h = fields_onto-nil [] ∙ close_nothing
fields-join (w ∷ []) (h, hs) = fields_onto-last w h
fields-join (w ∷ v ∷ ws) ((ne, h), hs) =
    let rest = join (space ∷ []) (v ∷ ws) in
    fields_onto-word [] w (space ∷ rest) (SpacelessBefore-space w rest h)
    ∙ fields_onto-space (reverse w ++ []) rest
    ∙ close_field-word w (fields_onto 0 [] rest) ne
    ∙ ap (λ t. w ∷ t) (fields-join (v ∷ ws) hs)
