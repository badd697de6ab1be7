-- ===== src/Ascii/Upload/Rounds.antt =====
-- A round of the loop of asciiWriter.Read (server/ascii.go): a block, and the CR that ends it.
use ftp.Base.{
  ℕ, zero, suc, ◌+◌, ◌-◌, ◌≤◌, ◌<◌, Bool, true, false, not, ◌||◌, Option, none, some, [], ◌∷◌, ◌++◌,
  ◌≡◌, ◌≢◌, ◌⊎◌, inl, inr, refl, sym, ap, ◌∙◌, arith, Bytes, ◌==◌, length, cr, lf, Bool-cases,
  append_assoc, length-append, is_empty,
}
use ftp.Bufio.{Reader, stream, concat}
use ftp.Ascii.{block, Stored, prepend, peek_two, drop_byte, at_cr, after_upload}
use ftp.Ascii.Blocks.{block-append, block-fits, block-stops, zero-nonempty, both-empty}
use ftp.Ascii.Download.{nonempty-last, length-positive}
use ftp.Ascii.Upload.{
  unix, unix-block, ends, ends-block_append, GivesSome, prepend-Gives, PeekedLast, PeekedNext,
  peek_two-cases,
}

-- The loop, right for every reader with less than `n` bytes to come.
abbrev pub LoopGives : ℕ → (ℕ → Bool → Reader → Option (Stored Reader)) → Type 0
LoopGives n loop =
    (m : ℕ) (later : Bool) (t : Reader)
    → length (stream t) < n
    → GivesSome m later (stream t) (loop m later t)

Bytes-cases : (b : Bytes) → (b ≡ []) ⊎ (b ≢ [])
Bytes-cases [] = inl refl
Bytes-cases (c ∷ b) = inr (λ e. cc)

some-injective : (a b : ℕ) → some a ≡ some b → a ≡ b
some-injective a b h = cc

skip_cr : (d : ℕ) (t : Bytes) → d == lf ≡ true → unix (cr ∷ d ∷ t) ≡ unix (d ∷ t)
skip_cr d t e = ground arith

keep_cr : (d : ℕ) (t : Bytes) → d == lf ≡ false → unix (cr ∷ d ∷ t) ≡ cr ∷ unix (d ∷ t)
keep_cr d t e = ground arith

module _ (n : ℕ) (loop : ℕ → Bool → Reader → Option (Stored Reader)) (ok : LoopGives n loop)
    (started : Bool) (copied : Bytes) (plain : (z : Bytes) → unix (copied ++ z) ≡ copied ++ unix z)
    (same_end : (z : Bytes) → ends (copied ++ z) ≡ ends z) where
  goes_on :
      {m : ℕ}
      → (copied ≢ [])
        ⊎ ((suc m ≢ 0)
            × (copied ≡ [])
            × (started ≡ false → started || not (is_empty copied) ≡ false))
  goes_on = elim (Bytes-cases copied) [
    | inl e ↦ inr (λ z. cc, e, λ f. rw (e, f) refl)
    | inr ne ↦ inl ne
  ]

  at_crlf-Gives :
      (m : ℕ) (q : Reader) (d : ℕ) (after : Bytes)
      → stream (drop_byte q) ≡ d ∷ after
      → length copied + length (cr ∷ d ∷ after) ≤ n
      → d == lf ≡ true
      → GivesSome
          (length copied + suc m)
          started
          (copied ++ cr ∷ d ∷ after)
          (prepend copied (loop (suc m) (started || not (is_empty copied)) (drop_byte q)))
  at_crlf-Gives m q d after s short e =
      prepend-Gives _ (suc m) started _ copied _ (stream (drop_byte q)) _ goes_on (omega arith)
        (ap (λ t. copied ++ unix t) s
          ∙ ap (λ t. copied ++ t) (sym (skip_cr d after e))
          ∙ sym (plain (cr ∷ d ∷ after)))
        (ap ends s ∙ sym (same_end (cr ∷ d ∷ after)))
        (ok (suc m) _ (drop_byte q) (omega (arith, ap length s)))

  at_lone_cr-Gives :
      (m : ℕ) (q : Reader) (d : ℕ) (after : Bytes)
      → stream (drop_byte q) ≡ d ∷ after
      → length copied + length (cr ∷ d ∷ after) ≤ n
      → d == lf ≡ false
      → GivesSome
          (length copied + suc m)
          started
          (copied ++ cr ∷ d ∷ after)
          (prepend (copied ++ cr ∷ []) (loop m true (drop_byte q)))
  at_lone_cr-Gives m q d after s short e =
      prepend-Gives _ m started true (copied ++ cr ∷ []) _ (stream (drop_byte q)) _
        (inl (nonempty-last copied cr [])) (omega (arith, length-append copied (cr ∷ [])))
        (append_assoc copied (cr ∷ []) _
          ∙ ap (λ t. copied ++ cr ∷ unix t) s
          ∙ ap (λ t. copied ++ t) (sym (keep_cr d after e))
          ∙ sym (plain (cr ∷ d ∷ after)))
        (ap ends s ∙ sym (same_end (cr ∷ d ∷ after)))
        (ok m true (drop_byte q) (omega (arith, ap length s)))

  at_cr-Gives :
      (m : ℕ) (q : Reader) (o : Option ℕ) (z : Bytes)
      → PeekedLast z (q, o) ⊎ PeekedNext z (q, o)
      → length copied + length z ≤ n
      → GivesSome (length copied + suc m) started (copied ++ z) (at_cr loop m started copied (q, o))
  unfolding at_cr
  at_cr-Gives m q none z (inl p) short = rw (p.is_last) (record {
    translates = ap (λ t. copied ++ unix t) p.stays ∙ sym (plain (cr ∷ []));
    fits = omega arith;
    at_end = λ e. cc;
    progress = λ _ _ _. inr p.stays;
    keeps = ap ends p.stays ∙ sym (same_end (cr ∷ []));
  })
  at_cr-Gives m q none z (inr p) short = absurd (ground (arith, p.found))
  at_cr-Gives m q (some d) z (inl p) short = absurd (ground (arith, p.nothing))
  at_cr-Gives m q (some d) z (inr p) short =
      let same : d ≡ p.byte = some-injective d p.byte p.found in
      let dropped : stream (drop_byte q) ≡ d ∷ p.after =
        p.dropped ∙ ap (λ x. x ∷ p.after) (sym same) in
      let whole : z ≡ cr ∷ d ∷ p.after = p.is_whole ∙ ap (λ x. cr ∷ x ∷ p.after) (sym same) in
      elim (Bool-cases (d == lf)) [
        | inl e ↦ rw (whole, e) (at_crlf-Gives m q d p.after dropped (rw whole at short) e)
        | inr e ↦ rw (whole, e) (at_lone_cr-Gives m q d p.after dropped (rw whole at short) e)
      ]

  drained-Gives :
      (m : ℕ) (q : Reader)
      → copied ≢ []
      → length copied + length (concat q.source) ≤ n
      → GivesSome
          (length copied + suc m)
          started
          (copied ++ concat q.source)
          (after_upload loop (suc m) started copied q [])
  unfolding after_upload
  drained-Gives m q ne short =
      prepend-Gives _ (suc m) started true copied _ (concat q.source) _ (inl ne) (omega arith)
        (sym (plain (concat q.source))) (sym (same_end (concat q.source)))
        (ok (suc m) true (record q { buffered = [] }) (omega (arith, length-positive copied ne)))

  at_cr_byte-Gives :
      (m : ℕ) (q : Reader) (t : Bytes)
      → length copied + length (cr ∷ (t ++ concat q.source)) ≤ n
      → GivesSome
          (length copied + suc m)
          started
          (copied ++ cr ∷ (t ++ concat q.source))
          (after_upload loop (suc m) started copied q (cr ∷ t))
  unfolding after_upload
  at_cr_byte-Gives m q t short =
      at_cr-Gives m (peek_two (cr ∷ t) q.source).0 (peek_two (cr ∷ t) q.source).1
        (cr ∷ (t ++ concat q.source)) (peek_two-cases t q.source) short

  after_upload-Gives :
      (m : ℕ) (q : Reader) (rest : Bytes)
      → (m ≡ 0 → copied ≢ [])
      → (m ≢ 0 → ((rest ≡ []) × (copied ≢ [])) ⊎ ((t : Bytes) × (rest ≡ cr ∷ t)))
      → length copied + length (rest ++ concat q.source) ≤ n
      → GivesSome
          (length copied + m)
          started
          (copied ++ (rest ++ concat q.source))
          (after_upload loop m started copied q rest)
  unfolding after_upload
  after_upload-Gives zero q rest ne shape short = record {
    translates = sym (plain (rest ++ concat q.source));
    fits = omega arith;
    at_end = λ e. cc;
    progress = λ _ _ _. inl (ne refl);
    keeps = sym (same_end (rest ++ concat q.source));
  }
  after_upload-Gives (suc m) q rest ne shape short = elim (shape (λ e. cc)) [
    | inl (e, nc) ↦ rw e (drained-Gives m q nc (rw e at short))
    | inr (t, e) ↦ rw e (at_cr_byte-Gives m q t (rw e at short))
  ]

GivesSome-room :
    (a b : ℕ) (started : Bool) (v w : Bytes) (o : Option (Stored Reader))
    → a ≡ b
    → v ≡ w
    → GivesSome a started v o
    → GivesSome b started w o
GivesSome-room a b started v w o e f h = rw f at (rw e at h)

-- A round of the loop, on a filled reader.
pub round-Gives :
    (n : ℕ) (loop : ℕ → Bool → Reader → Option (Stored Reader))
    → LoopGives n loop
    → (started : Bool) (room c : ℕ) (b : Bytes) (q : Reader) → q.buffered ≡ c ∷ b
    → length (stream q) ≤ n
    → GivesSome (suc room) started (stream q) (
        after_upload loop
          (suc room - length (block cr (suc room) q.buffered).0)
          started
          (block cr (suc room) q.buffered).0
          q
          (block cr (suc room) q.buffered).1)
round-Gives n loop ok started room c b q filled short =
    let x = (block cr (suc room) q.buffered).0 in
    let y = (block cr (suc room) q.buffered).1 in
    let whole : x ++ y ≡ q.buffered = block-append cr (suc room) q.buffered in
    let all : stream q ≡ x ++ (y ++ concat q.source) =
      ap (λ t. t ++ concat q.source) (sym whole) ∙ append_assoc x y (concat q.source) in
    GivesSome-room _ _ started _ _ _ (omega (arith, block-fits cr (suc room) q.buffered)) (sym all)
      (after_upload-Gives n loop ok started x (unix-block (suc room) q.buffered)
        (ends-block_append (suc room) q.buffered) (suc room - length x) q y (zero-nonempty room x)
        (λ m. elim (block-stops cr (suc room) q.buffered m) [
          | inl e ↦ inl (e, both-empty x y b c (whole ∙ filled) e)
          | inr w ↦ inr w
        ])
        (omega (arith, ap length all, length-append x (y ++ concat q.source))))
