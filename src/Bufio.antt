-- ===== src/Bufio.antt =====
-- What server/telnet.go and server/ascii.go use of bufio.Reader: a buffer over a source that delivers
-- its bytes in chunks and then ends.
use ftp.Base.{
  ℕ, Option, none, some, List, [], ◌∷◌, ◌++◌, ◌≡◌, refl, arith, Bytes, Option-cases, inl, inr,
}

-- A bufio.Reader: what it holds, and the chunks that its source will deliver before it ends.
pub record Reader : Type 0 where
  pub buffered : Bytes
  pub source : List Bytes

abbrev pub concat : List Bytes → Bytes
concat [] = []
concat (c ∷ cs) = c ++ concat cs

-- All bytes still to come.
abbrev pub stream : Reader → Bytes
stream r = r.buffered ++ concat r.source

-- The source's next chunk that holds a byte.
unfoldable pub refill : List Bytes → Option (ℕ × Reader)
refill [] = none
refill ([] ∷ cs) = refill cs
refill ((c ∷ b) ∷ cs) = some (c, record { buffered = b; source = cs })

unfoldable pub read_from : Bytes → List Bytes → Option (ℕ × Reader)
read_from [] cs = refill cs
read_from (c ∷ b) cs = some (c, record { buffered = b; source = cs })

-- bufio.Reader.ReadByte; `none` is the end of the source.
unfoldable pub read_byte : Reader → Option (ℕ × Reader)
unfolding read_from refill
read_byte r = read_from r.buffered r.source

pub refill_lem :
    (cs : List Bytes) (b : ℕ) (r : Reader) → refill cs ≡ some (b, r) → concat cs ≡ b ∷ stream r
unfolding refill
refill_lem [] b r h = cc
refill_lem ([] ∷ cs) b r h = refill_lem cs b r h
refill_lem ((c ∷ x) ∷ cs) b r h = ground arith

pub refill-none : (cs : List Bytes) → refill cs ≡ none → concat cs ≡ []
unfolding refill
refill-none [] h = refl
refill-none ([] ∷ cs) h = refill-none cs h
refill-none ((c ∷ x) ∷ cs) h = cc

read_from_lem :
    (x : Bytes) (cs : List Bytes) (b : ℕ) (r : Reader)
    → read_from x cs ≡ some (b, r)
    → x ++ concat cs ≡ b ∷ stream r
unfolding read_from
read_from_lem [] cs b r h = refill_lem cs b r h
read_from_lem (c ∷ x) cs b r h = ground arith

pub read_byte-stream :
    (r : Reader) (b : ℕ) (q : Reader) → read_byte r ≡ some (b, q) → stream r ≡ b ∷ stream q
unfolding read_byte
read_byte-stream r b q h = read_from_lem r.buffered r.source b q h

read_from-none : (x : Bytes) (cs : List Bytes) → read_from x cs ≡ none → x ++ concat cs ≡ []
unfolding read_from
read_from-none [] cs h = refill-none cs h
read_from-none (c ∷ x) cs h = cc

pub read_byte-none : (r : Reader) → read_byte r ≡ none → stream r ≡ []
unfolding read_byte
read_byte-none r h = read_from-none r.buffered r.source h

-- The `fill` of server/ascii.go: a byte at least is buffered afterwards, or the source has ended.
unfoldable pub fill : Reader → Option Reader
unfolding read_byte
fill r = elim (read_byte r) [
  | none ↦ none
  | some (b, q) ↦ some (record { buffered = b ∷ q.buffered; source = q.source })
]

pub fill-stream : (r q : Reader) → fill r ≡ some q → stream q ≡ stream r
unfolding fill
fill-stream r q h = elim (Option-cases (read_byte r)) [
  | inl e ↦ ground arith
  | inr ((b, t), e) ↦ ground (arith, read_byte-stream r b t e)
]

pub fill-none : (r : Reader) → fill r ≡ none → stream r ≡ []
unfolding fill
fill-none r h = ground (arith, read_byte-none r)

-- A filled reader has a byte in its buffer.
pub fill-buffered : (r q : Reader) → fill r ≡ some q → (c : ℕ) × (b : Bytes) × (q.buffered ≡ c ∷ b)
unfolding fill
fill-buffered r q h = elim (Option-cases (read_byte r)) [
  | inl e ↦ absurd (ground arith)
  | inr ((c, t), e) ↦ (c, t.buffered, ground arith)
]
