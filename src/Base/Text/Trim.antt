-- ===== src/Base/Text/Trim.antt =====
-- The white space at the ends of a text, and what strings.TrimSpace leaves.
use Prim.Native.Nat.{ℕ}
use mathlib.Core.Path.{◌≡◌, refl, subst, sym, ap, ◌∙◌}
use mathlib.Core.Logic.{◌≢◌}
use mathlib.Core.List.{
  List, [], ◌∷◌, ◌++◌, reverse, reverse-append, reverse-cons, reverse-reverse, append_assoc,
}
use ftp.Base.Lists.{All}
use native.Mathlib.Omega.{arith}
use ftp.Base.Text.{Bytes, space, space_width, end_width, drop_run, join, trim_space}
use ftp.Base.Text.Words.{Spaceless, IsWord, space_width-space, reverse-ne-nil, space_width-here}

end_width-space :
    (c : ℕ) (t s : Bytes) → end_width (c ∷ t) ≡ 0 → end_width (c ∷ (t ++ space ∷ s)) ≡ 0
unfolding end_width
end_width-space c [] [] h = ground arith
end_width-space c [] (a ∷ s) h = ground arith
end_width-space c (b ∷ []) s h = ground arith
end_width-space c (b ∷ a ∷ t) s h = ground arith

Spaceless-end : (g s : Bytes) → Spaceless (g ++ s) → Spaceless s
Spaceless-end [] s h = h
Spaceless-end (c ∷ g) s h = Spaceless-end g s h.1

last_three :
    (a b c : ℕ) (t : Bytes)
    → space_width (a ∷ b ∷ c ∷ []) ≡ 0
    → space_width (b ∷ c ∷ []) ≡ 0
    → space_width (c ∷ []) ≡ 0
    → end_width (c ∷ b ∷ a ∷ t) ≡ 0
unfolding end_width space_width
last_three a b c t h i j = ground arith

last_two :
    (b c : ℕ) → space_width (b ∷ c ∷ []) ≡ 0 → space_width (c ∷ []) ≡ 0 → end_width (c ∷ b ∷ []) ≡ 0
unfolding end_width space_width
last_two b c h i = ground arith

last_one : (c : ℕ) → space_width (c ∷ []) ≡ 0 → end_width (c ∷ []) ≡ 0
unfolding end_width space_width
last_one c h = ground arith

end_width-nil : end_width [] ≡ 0
unfolding end_width
end_width-nil = refl

-- A text without white space ends in none.
end_width-onto : (t : Bytes) → Spaceless (reverse t) → end_width t ≡ 0
end_width-onto [] h = end_width-nil
end_width-onto (c ∷ []) h = last_one c h.0
end_width-onto (c ∷ b ∷ []) h = last_two b c h.0 h.1.0
end_width-onto (c ∷ b ∷ a ∷ t) h =
    let k =
      Spaceless-end (reverse t) (a ∷ b ∷ c ∷ [])
        (subst Spaceless (reverse-append (c ∷ b ∷ a ∷ []) t) h) in
    last_three a b c t k.0 k.1.0 k.1.1.0

-- A text after a space ends in white space only if it does on its own.
end_width-before : (r s : Bytes) → r ≢ [] → end_width r ≡ 0 → end_width (r ++ space ∷ s) ≡ 0
end_width-before [] s ne h = absurd (ne refl)
end_width-before (c ∷ r) s ne h = end_width-space c r s h

pub end_width-after :
    (g t : Bytes) → t ≢ [] → end_width (reverse t) ≡ 0 → end_width (reverse (g ++ space ∷ t)) ≡ 0
end_width-after g t ne h =
    ap end_width (
      reverse-append g (space ∷ t)
      ∙ ap (λ r. r ++ reverse g) (reverse-cons space t)
      ∙ append_assoc (reverse t) (space ∷ []) (reverse g))
    ∙ end_width-before (reverse t) (reverse g) (reverse-ne-nil t ne) h

join-ne-nil : (w : Bytes) (ws : List Bytes) → w ≢ [] → join (space ∷ []) (w ∷ ws) ≢ []
unfolding join
join-ne-nil [] ws ne e = ne refl
join-ne-nil (c ∷ w) [] ne e = cc
join-ne-nil (c ∷ w) (v ∷ ws) ne e = cc

-- Words end in no white space.
end_width-join :
    (w : Bytes) (ws : List Bytes)
    → IsWord w
    → All IsWord ws
    → end_width (reverse (join (space ∷ []) (w ∷ ws))) ≡ 0
unfolding join
end_width-join w [] h hs =
    end_width-onto (reverse w) (subst Spaceless (sym (reverse-reverse w)) h.1)
end_width-join w (v ∷ ws) h (hv, hs) =
    end_width-after w (join (space ∷ []) (v ∷ ws)) (join-ne-nil v ws hv.0)
      (end_width-join v ws hv hs)

space_width-join :
    (c : ℕ) (w : Bytes) (ws : List Bytes)
    → Spaceless (c ∷ w)
    → (t : Bytes) × (join (space ∷ []) ((c ∷ w) ∷ ws) ≡ c ∷ t) × (space_width (c ∷ t) ≡ 0)
unfolding join
space_width-join c w [] h = (w, refl, h.0)
space_width-join c w (v ∷ ws) h = (_, refl, space_width-space c w (join (space ∷ []) (v ∷ ws)) h.0)

drop_run-stop : (width : Bytes → ℕ) (s : Bytes) → width s ≡ 0 → drop_run width 0 s ≡ s
unfolding drop_run
drop_run-stop width [] h = refl
drop_run-stop width (c ∷ s) h = rw (drop_run, h) refl

-- A text whose ends are no white space is left as it is.
trim_space-ends : (s : Bytes) → space_width s ≡ 0 → end_width (reverse s) ≡ 0 → trim_space s ≡ s
unfolding trim_space
trim_space-ends s h e =
    ap (λ t. drop_run space_width 0 (reverse t)) (drop_run-stop end_width (reverse s) e)
    ∙ ap (drop_run space_width 0) (reverse-reverse s)
    ∙ drop_run-stop space_width s h

-- strings.TrimSpace leaves words as they are.
pub trim_space-join :
    (w : Bytes) (ws : List Bytes)
    → IsWord w
    → All IsWord ws
    → trim_space (join (space ∷ []) (w ∷ ws)) ≡ join (space ∷ []) (w ∷ ws)
trim_space-join [] ws h hs = absurd (h.0 refl)
trim_space-join (c ∷ w) ws h hs =
    let (t, e, f) = space_width-join c w ws h.1 in
    trim_space-ends (join (space ∷ []) ((c ∷ w) ∷ ws)) (ap space_width e ∙ f)
      (end_width-join (c ∷ w) ws h hs)

drop_space : (s : Bytes) → drop_run space_width 0 (space ∷ s) ≡ drop_run space_width 0 s
unfolding drop_run
drop_space s = rw (drop_run, space_width-here s) refl

-- A space in front of a text whose ends are no white space is trimmed off.
pub trim_space-front :
    (s : Bytes)
    → s ≢ []
    → space_width s ≡ 0
    → end_width (reverse s) ≡ 0
    → trim_space (space ∷ s) ≡ s
unfolding trim_space
trim_space-front s ne h e =
    ap (λ t. drop_run space_width 0 (reverse t))
      (drop_run-stop end_width (reverse (space ∷ s)) (end_width-after [] s ne e))
    ∙ ap (drop_run space_width 0) (reverse-reverse (space ∷ s))
    ∙ drop_space s
    ∙ drop_run-stop space_width s h
