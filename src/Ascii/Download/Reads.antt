-- ===== src/Ascii/Download/Reads.antt =====
-- Calls of asciiReader.Read (server/ascii.go), and a whole download.
use ftp.Base.{
  ◌+◌, ℕ, zero, suc, ◌-◌, ◌<◌, Bool, true, false, not, Option, none, some, List, [], ◌∷◌, ◌++◌, ◌≡◌,
  ◌≢◌, inl, inr, refl, sym, ap, ◌∙◌, arith, Bytes, length, cr, lf, Bool-cases, Option-cases,
  append-nil, length-append,
}
use ftp.Bufio.{Reader, stream, concat, fill, fill-stream, fill-none, fill-buffered}
use ftp.Ascii.{
  block, AsciiReader, Stored, prepend, give, ends_in_cr, after_copy, read_loop, ascii_read, copy,
}
use ftp.Ascii.Download.{
  crlf, blank_free, yields, Gives, GivesSome, length-positive, prepend-Gives, GivesSome-eq,
}
use ftp.Ascii.Download.Rounds.{round-Gives}

read_loop_end :
    (fuel room : ℕ) (started : Bool) (s : AsciiReader)
    → fill s.r ≡ none
    → read_loop (suc fuel) (suc room) started s ≡ give [] (not started) s
unfolding read_loop
read_loop_end fuel room started s e = ground arith

read_loop_round :
    (fuel room : ℕ) (started : Bool) (s : AsciiReader) (q : Reader)
    → fill s.r ≡ some q
    → read_loop (suc fuel) (suc room) started s
      ≡ after_copy
          (λ m t. read_loop fuel m true t)
          (suc room - length (block lf (suc room) q.buffered).0)
          (block lf (suc room) q.buffered).0
          (ends_in_cr s.prev_was_cr (block lf (suc room) q.buffered).0)
          q
          (block lf (suc room) q.buffered).1
unfolding read_loop
read_loop_round fuel room started s q e = ground arith

read_loop-Gives :
    (fuel room : ℕ) (started : Bool) (s : AsciiReader)
    → s.pending ≡ none
    → length (stream s.r) < fuel
    → blank_free (stream s.r) ≡ true
    → GivesSome room started (yields s) (read_loop fuel room started s)
unfolding read_loop
read_loop-Gives zero room started s p short free = elim short [ ]
read_loop-Gives (suc fuel) zero started s p short free = record {
  translates = refl;
  fits = omega arith;
  at_end = λ e. cc;
  progress = λ _ n _. absurd (n refl);
  keeps = free;
}
read_loop-Gives (suc fuel) (suc room) started s p short free = elim (Option-cases (fill s.r)) [
  | inl e ↦ rw (read_loop_end fuel room started s e) (record {
    translates = refl;
    fits = omega arith;
    at_end = λ _. rw p (ap (crlf s.prev_was_cr) (fill-none s.r e));
    progress = λ f n b. ground arith;
    keeps = free;
  })
  | inr (q, e) ↦
      let (c, b, filled) = fill-buffered s.r q e in
      let same : stream q ≡ stream s.r = fill-stream s.r q e in
      rw (read_loop_round fuel room started s q e, p)
        (GivesSome-eq (suc room) started _ _ _ (ap (crlf s.prev_was_cr) same) (
          round-Gives fuel (λ m t. read_loop fuel m true t) (λ m t. read_loop-Gives fuel m true t)
            started s.prev_was_cr room c b q filled (omega (arith, short, ap length same))
            (rw same free)))
]

read_settled :
    (room : ℕ) (s : AsciiReader)
    → s.pending ≡ none
    → ascii_read (suc room) s ≡ read_loop (suc (length (stream s.r))) (suc room) false s
unfolding ascii_read
read_settled room s e = ground arith

read_pending :
    (room b : ℕ) (s : AsciiReader)
    → s.pending ≡ some b
    → ascii_read (suc room) s
      ≡ prepend
          (b ∷ [])
          (read_loop (suc (length (stream s.r))) room true (record s { pending = none }))
unfolding ascii_read
read_pending room b s e = ground arith

ascii_read-GivesSome :
    (room : ℕ) (s : AsciiReader)
    → blank_free (stream s.r) ≡ true
    → GivesSome room false (yields s) (ascii_read room s)
unfolding ascii_read
ascii_read-GivesSome zero s free = record {
  translates = refl;
  fits = omega arith;
  at_end = λ e. cc;
  progress = λ _ n _. absurd (n refl);
  keeps = free;
}
ascii_read-GivesSome (suc room) s free = elim (Option-cases s.pending) [
  | inl e ↦
      rw (read_settled room s e)
        (read_loop-Gives (suc (length (stream s.r))) (suc room) false s e (omega arith) free)
  | inr (b, e) ↦
      rw (read_pending room b s e, e)
        (prepend-Gives (suc room) room false (b ∷ []) _ _ (λ q. cc) (omega arith)
          (read_loop-Gives (suc (length (stream s.r))) room true (record s { pending = none }) refl
            (omega arith) free))
]

Gives-exists :
    (room : ℕ) (started : Bool) (expected : Bytes) (o : Option (Stored AsciiReader))
    → GivesSome room started expected o
    → (v : Stored AsciiReader) × (o ≡ some v) × Gives room started expected v
Gives-exists room started expected none h = absurd h
Gives-exists room started expected (some v) h = (v, refl, h)

-- A call of Read, with a slice of any length, on a reader whose stream holds no blank line: it
-- returns, and what it stored, followed by what the reader will yield after it, is what the reader was
-- to yield: its pending byte, and the stream with a CR before each LF that follows none. It fits the
-- slice; an error is returned only when nothing is left; with no error a byte at least is stored,
-- unless the slice is empty.
pub ascii_read-Gives :
    (room : ℕ) (s : AsciiReader)
    → blank_free (stream s.r) ≡ true
    → (v : Stored AsciiReader) × (ascii_read room s ≡ some v) × Gives room false (yields s) v
ascii_read-Gives room s free =
    Gives-exists room false (yields s) _ (ascii_read-GivesSome room s free)

copy_step :
    (fuel room : ℕ) (s : AsciiReader) (v : Stored AsciiReader) (rest : Bytes)
    → ascii_read room s ≡ some v
    → v.failed ≡ false
    → copy (ascii_read room) fuel v.state ≡ some rest
    → copy (ascii_read room) (suc fuel) s ≡ some (v.bytes ++ rest)
unfolding copy
copy_step fuel room s v rest e f h = ground (arith, e, h)

copy_stop :
    (fuel room : ℕ) (s : AsciiReader) (v : Stored AsciiReader)
    → ascii_read room s ≡ some v
    → v.failed ≡ true
    → copy (ascii_read room) (suc fuel) s ≡ some v.bytes
unfolding copy
copy_stop fuel room s v e f = ground (arith, e)

copies :
    (room : ℕ)
    → room ≢ 0
    → (fuel : ℕ) (s : AsciiReader) → length (yields s) < fuel
    → blank_free (stream s.r) ≡ true
    → copy (ascii_read room) fuel s ≡ some (yields s)
copies room n zero s short free = elim short [ ]
copies room n (suc fuel) s short free =
    let (v, e, g) = ascii_read-Gives room s free in
    elim (Bool-cases v.failed) [
      | inl f ↦
          copy_stop fuel room s v e f
          ∙ ap some
              (sym (append-nil v.bytes) ∙ ap (λ t. v.bytes ++ t) (sym (g.at_end f)) ∙ g.translates)
      | inr f ↦
          copy_step fuel room s v (yields v.state) e f (
            copies room n fuel v.state
              (omega (
                arith,
                ap length g.translates,
                length-append v.bytes (yields v.state),
                length-positive v.bytes (g.progress f n refl),
                short,
              ))
              g.keeps)
          ∙ ap some g.translates
    ]

-- The reader that `newASCIIReader` makes on a source.
abbrev pub new_ascii_reader : List Bytes → AsciiReader
new_ascii_reader cs = record {
  r = record { buffered = []; source = cs };
  prev_was_cr = false;
  pending = none;
}

-- A download in ASCII of a file with no blank line, through a buffer of any size but 0, however the
-- file's bytes arrive: with more calls of Read than the translated file has bytes, the copy ends, and
-- sends the file with a CR before each LF that follows none.
pub copy-ascii_read :
    (room : ℕ)
    → room ≢ 0
    → (cs : List Bytes) (fuel : ℕ) → length (crlf false (concat cs)) < fuel
    → blank_free (concat cs) ≡ true
    → copy (ascii_read room) fuel (new_ascii_reader cs) ≡ some (crlf false (concat cs))
copy-ascii_read room n cs fuel short free = copies room n fuel (new_ascii_reader cs) short free

blank_line_read :
    (b : Bytes) (cs : List Bytes)
    → (t : AsciiReader) × (ascii_read 1 (record {
      r = record { buffered = lf ∷ lf ∷ b; source = cs };
      prev_was_cr = false;
      pending = none;
    })
        ≡ some (record { bytes = cr ∷ []; failed = false; state = t }))
      × (yields t ≡ lf ∷ lf ∷ crlf false (b ++ concat cs))
      × (stream t.r ≡ lf ∷ (b ++ concat cs))
unfolding ascii_read read_loop after_copy block fill
blank_line_read b cs = (_, refl, refl, refl)

-- A blank line whose first LF meets the end of a slice: a download in ASCII, with slices of one byte,
-- from a reader that holds two LFs after no CR and then no blank line. With more calls of Read than
-- bytes that are sent, the copy ends, and sends the second LF with no CR before it.
pub blank_line_split :
    (b : Bytes) (cs : List Bytes) (fuel : ℕ)
    → blank_free (lf ∷ (b ++ concat cs)) ≡ true
    → length (crlf false (b ++ concat cs)) + 3 < fuel
    → copy (ascii_read 1) fuel (record {
      r = record { buffered = lf ∷ lf ∷ b; source = cs };
      prev_was_cr = false;
      pending = none;
    })
      ≡ some (cr ∷ lf ∷ lf ∷ crlf false (b ++ concat cs))
blank_line_split b cs zero free short = elim short [ ]
blank_line_split b cs (suc fuel) free short =
    let (t, read, left, held) = blank_line_read b cs in
    copy_step fuel 1 _ (record { bytes = cr ∷ []; failed = false; state = t })
      (lf ∷ lf ∷ crlf false (b ++ concat cs)) read refl
      (copies 1 (λ e. cc) fuel t (omega (arith, ap length left, short)) (ap blank_free held ∙ free)
        ∙ ap some left)
