-- ===== src/Ascii/Download.antt =====
-- asciiReader of server/ascii.go: what a download in ASCII is to send.
pub mod Rounds
pub mod Reads
use ftp.Base.{
  ℕ, zero, suc, ◌+◌, ◌-◌, ◌≤◌, ◌<◌, Bool, true, false, not, ◌&&◌, Option, none, some, List, [], ◌∷◌,
  ◌++◌, ◌≡◌, ◌≢◌, ◌⊎◌, inl, inr, refl, sym, ap, ◌∙◌, arith, Bytes, if◌then◌else◌, ◌==◌, length, cr,
  lf, Bool-cases, Option-cases, append_assoc, append-nil, length-append,
}
use ftp.Bufio.{Reader, stream, concat, fill, fill-stream, fill-none, fill-buffered}
use ftp.Ascii.{
  block, AsciiReader, Stored, prepend, give, ends_in_cr, at, after_copy, read_loop, ascii_read,
  copy_then, copy,
}
use ftp.Ascii.Blocks.{block-append, block-fits, block-stops}

-- LF as CRLF, but for an LF that follows a CR; `prev` says that a CR came before.
abbrev pub crlf : Bool → Bytes → Bytes
crlf prev [] = []
crlf prev (c ∷ s) =
    if c == lf
    then (if prev then lf ∷ crlf false s else cr ∷ lf ∷ crlf false s)
    else c ∷ crlf (c == cr) s

abbrev pub starts_with_lf : Bytes → Bool
starts_with_lf [] = false
starts_with_lf (c ∷ s) = c == lf

-- No LF follows another at once.
abbrev pub blank_free : Bytes → Bool
blank_free [] = true
blank_free (c ∷ s) = not (c == lf && starts_with_lf s) && blank_free s

pub blank_free-append : (x y : Bytes) → blank_free (x ++ y) ≡ true → blank_free y ≡ true
blank_free-append [] y h = h
blank_free-append (c ∷ x) y h = blank_free-append x y (ground arith)

-- With no LF at the front, a CR before makes no difference.
pub crlf-prev : (p q : Bool) (s : Bytes) → starts_with_lf s ≡ false → crlf p s ≡ crlf q s
crlf-prev p q [] h = refl
crlf-prev p q (c ∷ s) h = ground arith

pub crlf-block :
    (room : ℕ) (prev : Bool) (s z : Bytes)
    → crlf prev ((block lf room s).0 ++ z)
      ≡ (block lf room s).0 ++ crlf (ends_in_cr prev (block lf room s).0) z
unfolding block
crlf-block zero prev s z = refl
crlf-block (suc room) prev [] z = refl
crlf-block (suc room) prev (c ∷ s) z = ground (arith, crlf-block room (c == cr) s z)

-- What a reader will yield, its pending byte first.
abbrev pub yields : AsciiReader → Bytes
yields s = elim s.pending [
  | none ↦ crlf s.prev_was_cr (stream s.r)
  | some b ↦ b ∷ crlf s.prev_was_cr (stream s.r)
]

-- A call that is to yield `expected` stored its first part, and left the rest to the reader.
pub record Gives (room : ℕ) (started : Bool) (expected : Bytes) (v : Stored AsciiReader)
    : Type 0 where
  pub translates : v.bytes ++ yields v.state ≡ expected
  pub fits : length v.bytes ≤ room
  pub at_end : v.failed ≡ true → yields v.state ≡ []
  pub progress : v.failed ≡ false → room ≢ 0 → started ≡ false → v.bytes ≢ []
  pub keeps : blank_free (stream v.state.r) ≡ true

abbrev pub GivesSome : ℕ → Bool → Bytes → Option (Stored AsciiReader) → Type 0
GivesSome room started expected none = ⊥
GivesSome room started expected (some v) = Gives room started expected v

pub append-nonempty : (b v : Bytes) → b ≢ [] → b ++ v ≢ []
append-nonempty [] v h = absurd (h refl)
append-nonempty (c ∷ b) v h = λ e. cc

pub nonempty-last : (b : Bytes) (c : ℕ) (d : Bytes) → b ++ c ∷ d ≢ []
nonempty-last [] c d e = cc
nonempty-last (x ∷ b) c d e = cc

pub length-positive : (b : Bytes) → b ≢ [] → 0 < length b
length-positive [] h = absurd (h refl)
length-positive (c ∷ b) h = omega arith

pub prepend-Gives :
    (room m : ℕ) (started : Bool) (b expected : Bytes) (o : Option (Stored AsciiReader))
    → b ≢ []
    → length b + m ≤ room
    → GivesSome m true expected o
    → GivesSome room started (b ++ expected) (prepend b o)
prepend-Gives room m started b expected none n l h = absurd h
prepend-Gives room m started b expected (some v) n l h = record {
  translates = append_assoc b v.bytes (yields v.state) ∙ ap (λ t. b ++ t) h.translates;
  fits = omega (arith, length-append b v.bytes, h.fits);
  at_end = h.at_end;
  progress = λ _ _ _. append-nonempty b v.bytes n;
  keeps = h.keeps;
}

pub GivesSome-eq :
    (room : ℕ) (started : Bool) (a b : Bytes) (o : Option (Stored AsciiReader))
    → a ≡ b
    → GivesSome room started a o
    → GivesSome room started b o
GivesSome-eq room started a b o e h = rw e at h

-- The reader's loop, right for every reader with less than `n` bytes to come.
abbrev pub LoopGives : ℕ → (ℕ → AsciiReader → Option (Stored AsciiReader)) → Type 0
LoopGives n loop =
    (m : ℕ) (t : AsciiReader)
    → t.pending ≡ none
    → length (stream t.r) < n
    → blank_free (stream t.r) ≡ true
    → GivesSome m true (yields t) (loop m t)
