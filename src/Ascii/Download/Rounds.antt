-- ===== src/Ascii/Download/Rounds.antt =====
-- A round of the loop of asciiReader.Read (server/ascii.go): a block, and the LF that ends it.
use ftp.Base.{
  ℕ, zero, suc, ◌+◌, ◌-◌, ◌≤◌, ◌<◌, Bool, true, false, Option, [], ◌∷◌, ◌++◌, ◌≡◌, ◌≢◌, ◌⊎◌, inl,
  inr, refl, sym, ap, ◌∙◌, arith, Bytes, length, cr, lf, append_assoc, length-append,
}
use ftp.Bufio.{Reader, stream, concat}
use ftp.Ascii.{block, AsciiReader, Stored, prepend, ends_in_cr, at, after_copy}
use ftp.Ascii.Blocks.{block-append, block-fits, block-stops, zero-nonempty, both-empty}
use ftp.Ascii.Download.{
  crlf, blank_free, blank_free-append, crlf-prev, crlf-block, GivesSome, nonempty-last,
  length-positive, prepend-Gives, GivesSome-eq, LoopGives,
}

module _ (n : ℕ) (loop : ℕ → AsciiReader → Option (Stored AsciiReader)) (ok : LoopGives n loop)
    (started : Bool) (copied : Bytes) (q : Reader) where
  -- The copy and `b` are stored before the rest is translated.
  resume :
      (room m : ℕ) (next : Bool) (b rest : Bytes)
      → copied ++ b ≢ []
      → length copied + (length b + m) ≤ room
      → length (rest ++ concat q.source) < n
      → blank_free (rest ++ concat q.source) ≡ true
      → GivesSome room started
          (copied ++ (b ++ crlf next (rest ++ concat q.source)))
          (prepend (copied ++ b) (loop m (at q next rest)))
  resume room m next b rest ne fits short free =
      GivesSome-eq _ started _ _ _ (append_assoc copied b _) (
        prepend-Gives _ m started (copied ++ b) _ (loop m (at q next rest)) ne
          (omega (arith, length-append copied b)) (ok m (at q next rest) refl short free))

  full-Gives :
      (prev : Bool) (rest : Bytes)
      → copied ≢ []
      → blank_free (rest ++ concat q.source) ≡ true
      → GivesSome
          (length copied + 0)
          started
          (copied ++ crlf prev (rest ++ concat q.source))
          (after_copy loop 0 copied prev q rest)
  unfolding after_copy
  full-Gives prev rest ne free = record {
    translates = refl;
    fits = omega arith;
    at_end = λ e. cc;
    progress = λ _ _ _. ne;
    keeps = free;
  }

  at_lf-Gives :
      (m : ℕ) (prev : Bool) (t : Bytes)
      → length copied + suc (length (t ++ concat q.source)) ≤ n
      → blank_free (lf ∷ (t ++ concat q.source)) ≡ true
      → GivesSome
          (length copied + suc m)
          started
          (copied ++ crlf prev (lf ∷ (t ++ concat q.source)))
          (after_copy loop (suc m) copied prev q (lf ∷ t))
  unfolding after_copy
  at_lf-Gives zero true t short free =
      resume _ 0 false (lf ∷ []) t (nonempty-last copied lf []) (omega arith) (omega arith)
        (ground arith)
  at_lf-Gives zero false t short free = record {
    translates =
        append_assoc copied (cr ∷ []) _
        ∙ ap (λ x. copied ++ (cr ∷ lf ∷ x))
            (crlf-prev true false (t ++ concat q.source) (ground arith));
    fits = omega (arith, length-append copied (cr ∷ []));
    at_end = λ e. cc;
    progress = λ _ _ _. nonempty-last copied cr [];
    keeps = ground arith;
  }
  at_lf-Gives (suc m) true t short free =
      resume _ (suc m) false (lf ∷ []) t (nonempty-last copied lf []) (omega arith) (omega arith)
        (ground arith)
  at_lf-Gives (suc m) false t short free =
      resume _ m false (cr ∷ lf ∷ []) t (nonempty-last copied cr _) (omega arith) (omega arith)
        (ground arith)

  drained-Gives :
      (m : ℕ) (prev : Bool)
      → copied ≢ []
      → length copied + length (concat q.source) ≤ n
      → blank_free (concat q.source) ≡ true
      → GivesSome
          (length copied + suc m)
          started
          (copied ++ crlf prev (concat q.source))
          (after_copy loop (suc m) copied prev q [])
  unfolding after_copy
  drained-Gives m prev ne short free =
      prepend-Gives _ (suc m) started copied _ (loop (suc m) (at q prev [])) ne (omega arith)
        (ok (suc m) (at q prev []) refl (omega (arith, length-positive copied ne)) free)

  after_copy-Gives :
      (m : ℕ) (prev : Bool) (rest : Bytes)
      → (m ≡ 0 → copied ≢ [])
      → (m ≢ 0 → ((rest ≡ []) × (copied ≢ [])) ⊎ ((t : Bytes) × (rest ≡ lf ∷ t)))
      → length copied + length (rest ++ concat q.source) ≤ n
      → blank_free (rest ++ concat q.source) ≡ true
      → GivesSome
          (length copied + m)
          started
          (copied ++ crlf prev (rest ++ concat q.source))
          (after_copy loop m copied prev q rest)
  after_copy-Gives zero prev rest ne shape short free = full-Gives prev rest (ne refl) free
  after_copy-Gives (suc m) prev rest ne shape short free = elim (shape (λ e. cc)) [
    | inl (e, nc) ↦ rw e (drained-Gives m prev nc (rw e at short) (rw e at free))
    | inr (t, e) ↦ rw e (at_lf-Gives m prev t (rw e at short) (rw e at free))
  ]

GivesSome-room :
    (a b : ℕ) (started : Bool) (expected : Bytes) (o : Option (Stored AsciiReader))
    → a ≡ b
    → GivesSome a started expected o
    → GivesSome b started expected o
GivesSome-room a b started expected o e h = rw e at h

-- A round of the loop, on a filled reader.
pub round-Gives :
    (n : ℕ) (loop : ℕ → AsciiReader → Option (Stored AsciiReader))
    → LoopGives n loop
    → (started prev : Bool) (room c : ℕ) (b : Bytes) (q : Reader) → q.buffered ≡ c ∷ b
    → length (stream q) ≤ n
    → blank_free (stream q) ≡ true
    → GivesSome (suc room) started (crlf prev (stream q)) (
        after_copy loop
          (suc room - length (block lf (suc room) q.buffered).0)
          (block lf (suc room) q.buffered).0
          (ends_in_cr prev (block lf (suc room) q.buffered).0)
          q
          (block lf (suc room) q.buffered).1)
round-Gives n loop ok started prev room c b q filled short free =
    let x = (block lf (suc room) q.buffered).0 in
    let y = (block lf (suc room) q.buffered).1 in
    let whole : x ++ y ≡ q.buffered = block-append lf (suc room) q.buffered in
    let all : stream q ≡ x ++ (y ++ concat q.source) =
      ap (λ t. t ++ concat q.source) (sym whole) ∙ append_assoc x y (concat q.source) in
    GivesSome-room _ _ started _ _ (omega (arith, block-fits lf (suc room) q.buffered)) (
      GivesSome-eq _ started _ _ _
        (sym (crlf-block (suc room) prev q.buffered (y ++ concat q.source))
          ∙ ap (crlf prev) (sym all))
        (after_copy-Gives n loop ok started x q (suc room - length x) (ends_in_cr prev x) y
          (zero-nonempty room x)
          (λ m. elim (block-stops lf (suc room) q.buffered m) [
            | inl e ↦ inl (e, both-empty x y b c (whole ∙ filled) e)
            | inr w ↦ inr w
          ])
          (omega (arith, ap length all, length-append x (y ++ concat q.source)))
          (blank_free-append x (y ++ concat q.source) (rw all at free))))
