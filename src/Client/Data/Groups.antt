-- ===== src/Client/Data/Groups.antt =====
-- The patterns of data.go on printed numbers.
use ftp.Base.{
  ℕ, List, [], ◌∷◌, ◌++◌, map, ◌≡◌, ◌≢◌, refl, arith, some, none, false, true, Bytes, is_digit,
  show_nat, show_nat-digits, show_nat-ne-nil, All, is_empty, length, self_eq, Lacks, ◌==◌, ◌∙◌,
}
use ftp.Client.Data.{digit_run, match_groups, after_byte, find_submatch, match_here, after_text}

digit_run-digits :
    (g : Bytes) (c : ℕ) (s : Bytes)
    → All (λ d. is_digit d ≡ true) g
    → is_digit c ≡ false
    → digit_run (g ++ c ∷ s) ≡ (g, c ∷ s)
unfolding digit_run
digit_run-digits [] c s h e = rw e refl
digit_run-digits (d ∷ g) c s h e = rw (h.0, digit_run-digits g c s h.1 e) refl

not_empty : (g : Bytes) → g ≢ [] → is_empty g ≡ false
not_empty [] h = absurd (h refl)
not_empty (c ∷ g) h = refl

-- A group of digits is read, and then the groups after it.
match_group :
    (g ends s : Bytes) (c : ℕ) (gs : List Bytes)
    → All (λ d. is_digit d ≡ true) g
    → g ≢ []
    → is_digit c ≡ false
    → match_groups ends s ≡ some gs
    → match_groups (c ∷ ends) (g ++ c ∷ s) ≡ some (g ∷ gs)
unfolding match_groups
match_group g ends s c gs h ne e later =
    let e' = digit_run-digits g c s h e in rw (e', not_empty g ne, self_eq c, later) (rw e' refl)

-- Printed numbers, each with the next byte of the list after it.
abbrev pub chain : Bytes → List ℕ → Bytes → Bytes
chain (c ∷ ends) (n ∷ ns) rest = show_nat n ++ c ∷ chain ends ns rest
chain _ _ rest = rest

-- Printed numbers are read as groups.
pub match_groups-chain :
    (ends : Bytes) (ns : List ℕ) (rest : Bytes)
    → All (λ c. is_digit c ≡ false) ends
    → length ends ≡ length ns
    → match_groups ends (chain ends ns rest) ≡ some (map show_nat ns)
unfolding match_groups
match_groups-chain [] [] rest h l = refl
match_groups-chain [] (n ∷ ns) rest h l = absurd (omega arith)
match_groups-chain (c ∷ ends) [] rest h l = absurd (omega arith)
match_groups-chain (c ∷ ends) (n ∷ ns) rest h l =
    match_group (show_nat n) ends (chain ends ns rest) c (map show_nat ns) (show_nat-digits n)
      (show_nat-ne-nil n) (h.0) (match_groups-chain ends ns rest h.1 (omega arith))

after_byte-other : (o c : ℕ) (s : Bytes) → c == o ≡ false → after_byte o (c ∷ s) ≡ none
after_byte-other o c s h = rw h refl

after_text-other : (o c : ℕ) (os s : Bytes) → c == o ≡ false → after_text (o ∷ os) (c ∷ s) ≡ none
unfolding after_text
after_text-other o c os s h = ground (arith, after_byte-other o c s h)

after_text-here : (o : ℕ) (os s : Bytes) → after_text (o ∷ os) (o ∷ s) ≡ after_text os s
unfolding after_text
after_text-here o os s = ground (arith, self_eq o)

match_here-other :
    (o c : ℕ) (os ends s : Bytes) → c == o ≡ false → match_here (o ∷ os) ends (c ∷ s) ≡ none
unfolding match_here
match_here-other o c os ends s h = rw (match_here, after_text-other o c os s h) refl

find_submatch-step :
    (o c : ℕ) (os ends s : Bytes)
    → c == o ≡ false
    → find_submatch (o ∷ os) ends (c ∷ s) ≡ find_submatch (o ∷ os) ends s
unfolding find_submatch
find_submatch-step o c os ends s h = rw (find_submatch, match_here-other o c os ends s h) refl

-- A prefix that lacks the first byte of the pattern is passed over.
pub find_submatch-skip :
    (o : ℕ) (os ends p s : Bytes)
    → Lacks o p
    → find_submatch (o ∷ os) ends (p ++ s) ≡ find_submatch (o ∷ os) ends s
find_submatch-skip o os ends [] s h = refl
find_submatch-skip o os ends (c ∷ p) s h =
    find_submatch-step o c os ends (p ++ s) h.0 ∙ find_submatch-skip o os ends p s h.1

match_here-here :
    (o : ℕ) (os ends s s' : Bytes) (gs : List Bytes)
    → after_text os s ≡ some s'
    → match_groups ends s' ≡ some gs
    → match_here (o ∷ os) ends (o ∷ s) ≡ some gs
unfolding match_here
match_here-here o os ends s s' gs e f = rw (match_here, after_text-here o os s ∙ e) f

-- A match at the front is the one found.
pub find_submatch-here :
    (o : ℕ) (os ends s s' : Bytes) (gs : List Bytes)
    → after_text os s ≡ some s'
    → match_groups ends s' ≡ some gs
    → find_submatch (o ∷ os) ends (o ∷ s) ≡ some gs
unfolding find_submatch
find_submatch-here o os ends s s' gs e f =
    rw (find_submatch, match_here-here o os ends s s' gs e f) refl
