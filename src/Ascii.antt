-- ===== src/Ascii.antt =====
-- server/ascii.go: line ends of ASCII transfers, LF to CRLF for a download and CRLF to LF for an
-- upload, over a bufio.Reader.
pub mod Blocks
pub mod Download
pub mod Upload
pub mod RoundTrip
pub mod Tests
use ftp.Bufio.{Reader, stream, refill, fill}
use ftp.Base.{
  ℕ, zero, suc, ◌-◌, Bool, true, false, not, ◌||◌, Option, none, some, List, [], ◌∷◌, ◌++◌, Bytes,
  if◌then◌else◌, ◌==◌, length, cr, lf, is_empty,
}

-- The bytes before the first `b`, at most `room` of them, and what follows: bytes.IndexByte with
-- the bound on the copy.
unfoldable pub block : ℕ → ℕ → Bytes → Bytes × Bytes
block b zero s = ([], s)
block b (suc room) [] = ([], [])
block b (suc room) (c ∷ s) =
    let rest = block b room s in if c == b then ([], c ∷ s) else (c ∷ rest.0, rest.1)

-- An asciiReader; `pending` is the byte that `hasPending` announces.
pub record AsciiReader : Type 0 where
  pub r : Reader
  pub prev_was_cr : Bool
  pub pending : Option ℕ

-- What a call of Read stored, whether it failed, and the reader after it.
pub record Stored (S : Type 0) : Type 0 where
  pub bytes : Bytes
  pub failed : Bool
  pub state : S

abbrev pub prepend : {S : Type 0} → Bytes → Option (Stored S) → Option (Stored S)
prepend b none = none
prepend b (some v) = some (record v { bytes = b ++ v.bytes })

abbrev pub give : {S : Type 0} → Bytes → Bool → S → Option (Stored S)
give b failed s = some (record { bytes = b; failed = failed; state = s })

-- The byte copied last decides `prevWasCR`; with nothing copied it stays.
abbrev pub ends_in_cr : Bool → Bytes → Bool
ends_in_cr prev [] = prev
ends_in_cr prev (c ∷ s) = ends_in_cr (c == cr) s

abbrev pub at : Reader → Bool → Bytes → AsciiReader
at q prev b = record { r = record q { buffered = b }; prev_was_cr = prev; pending = none }

-- What follows the copy of a block: `rest` is empty, or its first byte is an LF.
unfoldable pub after_copy :
    (ℕ → AsciiReader → Option (Stored AsciiReader))
    → ℕ
    → Bytes
    → Bool
    → Reader
    → Bytes
    → Option (Stored AsciiReader)
after_copy loop zero copied prev q rest = give copied false (at q prev rest)
after_copy loop (suc m) copied prev q [] = prepend copied (loop (suc m) (at q prev []))
after_copy loop (suc zero) copied true q (c ∷ rest) =
    prepend (copied ++ lf ∷ []) (loop 0 (at q false rest))
after_copy loop (suc zero) copied false q (c ∷ rest) =
    give (copied ++ cr ∷ []) false (record (at q true rest) { pending = some lf })
after_copy loop (suc (suc m)) copied true q (c ∷ rest) =
    prepend (copied ++ lf ∷ []) (loop (suc m) (at q false rest))
after_copy loop (suc (suc m)) copied false q (c ∷ rest) =
    prepend (copied ++ cr ∷ lf ∷ []) (loop m (at q false rest))

-- The loop of Read, with `room` bytes free in p; `started` says that some were stored.
unfoldable pub read_loop : ℕ → ℕ → Bool → AsciiReader → Option (Stored AsciiReader)
read_loop zero room started s = none
read_loop (suc fuel) zero started s = give [] false s
read_loop (suc fuel) (suc room) started s =
    let loop = λ (m : ℕ) (t : AsciiReader). read_loop fuel m true t in
    elim (fill s.r) [
      | none ↦ give [] (not started) s
      | some q ↦
          let b = block lf (suc room) q.buffered in
          after_copy loop (suc room - length b.0) b.0 (ends_in_cr s.prev_was_cr b.0) q b.1
    ]

-- `asciiReader.Read`: the pending byte first, `prevWasCR` as it was.
unfoldable pub ascii_read : ℕ → AsciiReader → Option (Stored AsciiReader)
unfolding read_loop after_copy block fill
ascii_read zero s = give [] false s
ascii_read (suc room) s =
    let fuel = suc (length (stream s.r)) in
    elim s.pending [
      | none ↦ read_loop fuel (suc room) false s
      | some b ↦ prepend (b ∷ []) (read_loop fuel room true (record s { pending = none }))
    ]

-- Peek(2) at a reader whose buffer starts with a byte.
unfoldable pub peek_two : Bytes → List Bytes → Reader × Option ℕ
peek_two (c ∷ d ∷ b) cs = (record { buffered = c ∷ d ∷ b; source = cs }, some d)
peek_two (c ∷ []) cs = elim (refill cs) [
  | none ↦ (record { buffered = c ∷ []; source = [] }, none)
  | some (d, t) ↦ (record { buffered = c ∷ d ∷ t.buffered; source = t.source }, some d)
]
peek_two [] cs = (record { buffered = []; source = cs }, none)

abbrev pub drop_byte : Reader → Reader
drop_byte q = elim q.buffered [ [] ↦ q | c ∷ b ↦ record q { buffered = b } ]

-- At a CR: one before an LF is skipped, a last one is left where it is, any other is kept.
unfoldable pub at_cr :
    (ℕ → Bool → Reader → Option (Stored Reader))
    → ℕ
    → Bool
    → Bytes
    → Reader × Option ℕ
    → Option (Stored Reader)
at_cr loop m started copied (q, none) = give copied false q
at_cr loop m started copied (q, some d) =
    if d == lf
    then prepend copied (loop (suc m) (started || not (is_empty copied)) (drop_byte q))
    else prepend (copied ++ cr ∷ []) (loop m true (drop_byte q))

-- What follows the copy of a block: `rest` is empty, or its first byte is a CR.
unfoldable pub after_upload :
    (ℕ → Bool → Reader → Option (Stored Reader))
    → ℕ
    → Bool
    → Bytes
    → Reader
    → Bytes
    → Option (Stored Reader)
unfolding at_cr peek_two
after_upload loop zero started copied q rest = give copied false (record q { buffered = rest })
after_upload loop (suc m) started copied q [] =
    prepend copied (loop (suc m) true (record q { buffered = [] }))
after_upload loop (suc m) started copied q (c ∷ rest) =
    at_cr loop m started copied (peek_two (c ∷ rest) q.source)

unfoldable pub upload_loop : ℕ → ℕ → Bool → Reader → Option (Stored Reader)
upload_loop zero room started r = none
upload_loop (suc fuel) zero started r = give [] false r
upload_loop (suc fuel) (suc room) started r =
    let loop = λ (m : ℕ) (b : Bool) (t : Reader). upload_loop fuel m b t in
    elim (fill r) [
      | none ↦ give [] (not started) r
      | some q ↦
          let b = block cr (suc room) q.buffered in
          after_upload loop (suc room - length b.0) started b.0 q b.1
    ]

-- `asciiWriter.Read`
unfoldable pub upload_read : ℕ → Reader → Option (Stored Reader)
unfolding upload_loop after_upload block fill
upload_read room r = upload_loop (suc (length (stream r))) room false r

abbrev pub copy_then : {S : Type 0} → (S → Option Bytes) → Option (Stored S) → Option Bytes
copy_then next none = none
copy_then next (some v) =
    if v.failed
    then some v.bytes
    else (elim (next v.state) [ none ↦ none | some rest ↦ some (v.bytes ++ rest) ])

-- io.CopyBuffer, for at most `fuel` calls of Read: what was written, once Read fails.
unfoldable pub copy : {S : Type 0} → (S → Option (Stored S)) → ℕ → S → Option Bytes
copy read zero s = none
copy read (suc fuel) s = copy_then (copy read fuel) (read s)
