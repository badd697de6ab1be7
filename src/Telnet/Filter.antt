-- ===== src/Telnet/Filter.antt =====
-- Reading through server/telnet.go, in any portions, yields the stream without its Telnet commands.
use ftp.Base.{
  ℕ, zero, suc, ◌≤◌, ◌<◌, Bool, true, false, Option, none, some, List, [], ◌∷◌, ◌++◌, ◌≡◌, ◌≢◌, inl,
  inr, refl, ap, arith, Bytes, if◌then◌else◌, ◌==◌, length, Option-cases, Bool-cases, append_assoc,
  ◌∙◌,
}
use ftp.Bufio.{Reader, stream, read_byte, read_byte-stream, read_byte-none}
use ftp.Telnet.{telnet_iac, has_option, after_iac, Result, store, read_loop, read}

-- The stream without its commands; one that is cut off is dropped.
abbrev mutual
  pub strip : Bytes → Bytes
  strip [] = []
  strip (c ∷ s) = if c == telnet_iac then strip_command s else c ∷ strip s

  pub strip_command : Bytes → Bytes
  strip_command [] = []
  strip_command (c ∷ s) =
      if c == telnet_iac
      then telnet_iac ∷ strip s
      else if has_option c
      then strip_option s
      else strip s

  pub strip_option : Bytes → Bytes
  strip_option [] = []
  strip_option (_ ∷ s) = strip s

-- A call that is to yield `expected` stored its first part, and left the rest in the reader.
pub record Gives (room : ℕ) (started : Bool) (expected : Bytes) (v : Result) : Type 0 where
  pub filters : v.stored ++ strip (stream v.reader) ≡ expected
  pub fits : length v.stored ≤ room
  pub at_end : v.failed ≡ true → stream v.reader ≡ []
  pub progress : v.failed ≡ false → room ≢ 0 → started ≡ false → v.stored ≢ []

abbrev GivesSome : ℕ → Bool → Bytes → Option Result → Type 0
GivesSome room started expected none = ⊥
GivesSome room started expected (some v) = Gives room started expected v

module _ (n room : ℕ) (started : Bool) (kept skipped : Reader → Option Result) where
  after_iac-Gives :
      ((q : Reader)
        → length (stream q) < n
        → GivesSome room started (telnet_iac ∷ strip (stream q)) (kept q))
      → ((q : Reader)
          → length (stream q) < n
          → GivesSome room started (strip (stream q)) (skipped q))
      → (r : Reader) → length (stream r) ≤ n
      → GivesSome room started (strip_command (stream r)) (after_iac kept skipped r)
  unfolding after_iac
  after_iac-Gives hk hs r h = elim (Option-cases (read_byte r)) [
    | inl e ↦ ground (arith, read_byte-none r e)
    | inr ((c, q), e) ↦ elim (Option-cases (read_byte q)) [
      | inl e1 ↦ ground (arith, read_byte-stream r c q e, read_byte-none q e1, hk q, hs q)
      | inr ((d, t), e1) ↦
          ground (arith, read_byte-stream r c q e, read_byte-stream q d t e1, hk q, hs q, hs t)
    ]
  ]

store-Gives :
    (room : ℕ) (started : Bool) (b : ℕ) (expected : Bytes) (o : Option Result)
    → GivesSome room true expected o
    → GivesSome (suc room) started (b ∷ expected) (store b o)
store-Gives room started b expected none h = absurd h
store-Gives room started b expected (some v) h = ground arith

read_loop-Gives :
    (fuel room : ℕ) (started : Bool) (r : Reader)
    → length (stream r) < fuel
    → GivesSome room started (strip (stream r)) (read_loop fuel room started r)
unfolding read_loop
read_loop-Gives zero room started r h = elim h [ ]
read_loop-Gives (suc fuel) zero started r h = ground arith
read_loop-Gives (suc fuel) (suc room) started r h =
    let keep = λ (b : ℕ) (q : Reader) (m : length (stream q) < fuel).
      store-Gives room started b _ _ (read_loop-Gives fuel room true q m) in
    let skip =
      λ (q : Reader) (m : length (stream q) < fuel). read_loop-Gives fuel (suc room) started q m in
    elim (Option-cases (read_byte r)) [
      | inl e ↦ ground (arith, read_byte-none r e)
      | inr ((b, q), e) ↦
          let s : stream r ≡ b ∷ stream q = read_byte-stream r b q e in
          let m : length (stream q) < fuel = omega (arith, ap length s) in
          ground (
            arith,
            s,
            keep b q m,
            after_iac-Gives fuel (suc room) started _ _ (keep telnet_iac) skip q (omega arith),
          )
    ]

-- A call of Read with a slice of any length on any reader returns, with fuel one more than the bytes
-- to come: what it stored, followed by the rest of the stream without its Telnet commands, is the
-- stream without its Telnet commands. It fits the slice; an error is returned at the stream's end
-- only, and with no error at least one byte is stored, unless the slice is empty.
pub read-Gives :
    (room : ℕ) (r : Reader)
    → (v : Result) × (read room r ≡ some v) × Gives room false (strip (stream r)) v
unfolding read
read-Gives room r =
    given (read_loop (suc (length (stream r))) room false r) refl
      (read_loop-Gives (suc (length (stream r))) room false r (omega arith))
  where
    given :
        (o : Option Result)
        → read_loop (suc (length (stream r))) room false r ≡ o
        → GivesSome room false (strip (stream r)) o
        → (v : Result) × (read room r ≡ some v) × Gives room false (strip (stream r)) v
    given none e h = absurd h
    given (some v) e h = (v, e, h)

-- The next calls, unless this one failed.
abbrev read_then : (Reader → Option (Bytes × Reader)) → Option Result → Option (Bytes × Reader)
read_then next none = none
read_then next (some v) =
    if v.failed
    then some (v.stored, v.reader)
    else (elim (next v.reader) [ none ↦ none | some (rest, q) ↦ some (v.stored ++ rest, q) ])

-- Calls of Read with slices of the given lengths, until one fails.
pub read_all : List ℕ → Reader → Option (Bytes × Reader)
read_all [] r = some ([], r)
read_all (room ∷ rooms) r = read_then (read_all rooms) (read room r)

pub record ReadsAll (rooms : List ℕ) (r : Reader) : Type 0 where
  pub stored : Bytes
  pub left : Reader
  pub ends : read_all rooms r ≡ some (stored, left)
  pub filters : stored ++ strip (stream left) ≡ strip (stream r)

-- Any number of calls of Read, with slices of any lengths, up to the first that fails: all return, and
-- what they stored together, followed by the rest of the stream without its Telnet commands, is the
-- stream without its Telnet commands, however the source cuts it into chunks.
pub read_all-ReadsAll : (rooms : List ℕ) (r : Reader) → ReadsAll rooms r
unfolding read_all
read_all-ReadsAll [] r = record { stored = []; left = r; ends = refl; filters = refl }
read_all-ReadsAll (room ∷ rooms) r =
    let (v, e, g) = read-Gives room r in
    let rest = read_all-ReadsAll rooms v.reader in
    elim (Bool-cases v.failed) [
      | inl f ↦ record {
        stored = v.stored;
        left = v.reader;
        ends = ground (arith, e);
        filters = g.filters;
      }
      | inr f ↦ record {
        stored = v.stored ++ rest.stored;
        left = rest.left;
        ends = ground (arith, e, rest.ends);
        filters =
            append_assoc v.stored rest.stored (strip (stream rest.left))
            ∙ ap (λ t. v.stored ++ t) rest.filters
            ∙ g.filters;
      }
    ]
