-- ===== src/Driver/Confined.antt =====
-- Paths that `resolve` of server/driver_fs.go yields stay below the root.
use ftp.Base.{
  true, false, List, [], ◌∷◌, ◌++◌, ◌≡◌, ◌≢◌, ◌⊎◌, inl, inr, refl, arith, Bytes, bytes_eq,
  bytes_eq_iff, is_empty, has_prefix, split, join, All, All-reverse, split-free, Bool-cases, ◌==◌,
}
use ftp.Session.State.{ok}
use ftp.Driver.Path.{
  slash, dot, dot_dot, pop, push, clean_parts, is_rooted, clean, join_path, virtual, resolve,
  strip_slash,
}

-- The name of an entry of a directory.
pub record IsName (p : Bytes) : Type 0 where
  pub not_empty : p ≢ []
  pub not_dot : p ≢ dot
  pub not_dot_dot : p ≢ dot_dot
  pub no_slash : All (λ c. c == b'/' ≡ false) p

-- A path without "..": the root itself, or names below it.
pub record IsBelow (rel : Bytes) : Type 0 where
  pub names : List Bytes
  pub all_names : All IsName names
  pub printed : (rel ≡ dot) ⊎ ((names ≢ []) × (rel ≡ join slash names))

-- A virtual path from the root, without ".." and ".".
pub record IsVirtual (path : Bytes) : Type 0 where
  pub names : List Bytes
  pub all_names : All IsName names
  pub printed : path ≡ slash ++ join slash names

abbrev NoSlash : Bytes → Type 0
NoSlash = All (λ c. c == b'/' ≡ false)

differs : {a b : Bytes} → bytes_eq a b ≡ false → a ≢ b
differs {a} {b} h q = ground (arith, bytes_eq_iff a b)

not_empty : (p : Bytes) → is_empty p ≡ false → p ≢ []
not_empty [] h = absurd (cc)
not_empty (c ∷ p) h = λ e. cc

pop-IsName : (kept : List Bytes) → All IsName kept → All IsName (pop true kept)
unfolding pop
pop-IsName [] h = tt
pop-IsName (p ∷ ps) (n, h) = elim (Bool-cases (bytes_eq p dot_dot)) [
  | inl e ↦ absurd (n.not_dot_dot ((bytes_eq_iff p dot_dot).0 e))
  | inr e ↦ rw e h
]

push-IsName :
    (p : Bytes) (kept : List Bytes) → NoSlash p → All IsName kept → All IsName (push true p kept)
unfolding push
push-IsName p kept s h = elim (Bool-cases (is_empty p)) [
  | inl e ↦ rw e h
  | inr e ↦ elim (Bool-cases (bytes_eq p dot)) [
    | inl d ↦ rw (e, d) h
    | inr d ↦ elim (Bool-cases (bytes_eq p dot_dot)) [
      | inl f ↦ rw (e, d, f) (pop-IsName kept h)
      | inr f ↦
          rw (e, d, f)
            (
              record {
                not_empty = not_empty p e;
                not_dot = differs d;
                not_dot_dot = differs f;
                no_slash = s;
              },
              h,
            )
    ]
  ]
]

clean_parts-IsName :
    (ps kept : List Bytes)
    → All NoSlash ps
    → All IsName kept
    → All IsName (clean_parts true kept ps)
unfolding clean_parts
clean_parts-IsName [] kept s h = All-reverse IsName kept h
clean_parts-IsName (p ∷ ps) kept s h =
    clean_parts-IsName ps (push true p kept) s.1 (push-IsName p kept s.0 h)

pub clean-IsVirtual : (path : Bytes) → is_rooted path ≡ true → IsVirtual (clean path)
unfolding clean
clean-IsVirtual path h = record {
  names = clean_parts true [] (split b'/' path);
  all_names = clean_parts-IsName (split b'/' path) [] (split-free b'/' path) tt;
  printed = ground arith;
}

clean_rooted :
    (path : Bytes)
    → is_rooted path ≡ true
    → clean path ≡ slash ++ join slash (clean_parts true [] (split b'/' path))
unfolding clean
clean_rooted path h = ground arith

rooted-append : (cwd path : Bytes) → is_rooted cwd ≡ true → is_rooted (cwd ++ path) ≡ true
unfolding has_prefix
rooted-append [] path h = absurd (cc)
rooted-append (c ∷ cwd) path h = h

pub IsVirtual-is_rooted : (path : Bytes) → IsVirtual path → is_rooted path ≡ true
unfolding has_prefix
IsVirtual-is_rooted path v = rw (v.printed) refl

pub virtual-is_rooted :
    (cwd path : Bytes) → is_rooted cwd ≡ true → is_rooted (virtual cwd path) ≡ true
unfolding virtual join_path
virtual-is_rooted [] path h = absurd (cc)
virtual-is_rooted (c ∷ cwd) path h = elim (Bool-cases (is_rooted path)) [
  | inl e ↦ rw (e, e) refl
  | inr e ↦ rw e (
      IsVirtual-is_rooted _ (
        clean-IsVirtual ((c ∷ cwd) ++ (slash ++ path)) (rooted-append (c ∷ cwd) (slash ++ path) h)))
]

join-not_empty : (n : Bytes) (ns : List Bytes) → n ≢ [] → is_empty (join slash (n ∷ ns)) ≡ false
unfolding join
join-not_empty [] ns h = absurd (h refl)
join-not_empty (c ∷ n) [] h = refl
join-not_empty (c ∷ n) (m ∷ ns) h = refl

strip_names :
    (names : List Bytes)
    → All IsName names
    → (rel : Bytes) × (strip_slash (slash ++ join slash names) ≡ ok rel) × IsBelow rel
unfolding strip_slash join
strip_names [] h = (dot, refl, record { names = []; all_names = tt; printed = inl refl })
strip_names (n ∷ ns) h = (
  join slash (n ∷ ns),
  ground (arith, join-not_empty n ns h.0.not_empty),
  record { names = n ∷ ns; all_names = h; printed = inr ((λ e. cc), refl) },
)

strip_slash-IsBelow :
    (p : Bytes) → IsVirtual p → (rel : Bytes) × (strip_slash p ≡ ok rel) × IsBelow rel
strip_slash-IsBelow p v = rw (v.printed) (strip_names v.names v.all_names)

-- From a working directory that starts at the root, every path resolves, to the root or to entries
-- below it: no element is empty, "." or "..", and none holds a slash.
pub resolve-IsBelow :
    (cwd path : Bytes)
    → is_rooted cwd ≡ true
    → (rel : Bytes) × (resolve cwd path ≡ ok rel) × IsBelow rel
unfolding resolve
resolve-IsBelow cwd path h =
    strip_slash-IsBelow _ (clean-IsVirtual (virtual cwd path) (virtual-is_rooted cwd path h))
