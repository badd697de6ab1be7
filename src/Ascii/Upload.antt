-- ===== src/Ascii/Upload.antt =====
-- asciiWriter of server/ascii.go: what an upload in ASCII is to store.
pub mod Rounds
pub mod Reads
use ftp.Base.{
  ℕ, zero, suc, ◌+◌, ◌-◌, ◌≤◌, ◌<◌, Bool, true, false, not, ◌&&◌, ◌||◌, Option, none, some, List,
  [], ◌∷◌, ◌++◌, ◌≡◌, ◌≢◌, ◌⊎◌, inl, inr, refl, sym, ap, ◌∙◌, arith, Bytes, if◌then◌else◌, ◌==◌,
  length, cr, lf, Bool-cases, Option-cases, append_assoc, append-nil, length-append, is_empty,
}
use ftp.Bufio.{Reader, stream, concat, refill, refill_lem, refill-none}
use ftp.Ascii.{block, Stored, prepend, give, ends_in_cr, peek_two, drop_byte}
use ftp.Ascii.Download.{starts_with_lf, append-nonempty}

-- CRLF as LF; a CR that no LF follows stays.
abbrev pub unix : Bytes → Bytes
unix [] = []
unix (c ∷ s) = if c == cr && starts_with_lf s then unix s else c ∷ unix s

pub unix-block :
    (room : ℕ) (s z : Bytes) → unix ((block cr room s).0 ++ z) ≡ (block cr room s).0 ++ unix z
unfolding block
unix-block zero s z = refl
unix-block (suc room) [] z = refl
unix-block (suc room) (c ∷ s) z = ground (arith, unix-block room s z)

-- Whether the last byte is a CR.
abbrev pub ends : Bytes → Bool
ends = ends_in_cr false

pub ends-append : (p : Bool) (x y : Bytes) → ends_in_cr p (x ++ y) ≡ ends_in_cr (ends_in_cr p x) y
ends-append p [] y = refl
ends-append p (c ∷ x) y = ends-append (c == cr) x y

ends-block : (room : ℕ) (s : Bytes) → ends (block cr room s).0 ≡ false
unfolding block
ends-block room s = block_ends room false s refl
  where
    block_ends : (n : ℕ) (p : Bool) (t : Bytes) → p ≡ false → ends_in_cr p (block cr n t).0 ≡ false
    block_ends zero p t e = e
    block_ends (suc n) p [] e = e
    block_ends (suc n) p (c ∷ t) e = ground (arith, block_ends n false t refl)

pub ends-block_append : (room : ℕ) (s z : Bytes) → ends ((block cr room s).0 ++ z) ≡ ends z
ends-block_append room s z =
    ends-append false (block cr room s).0 z ∙ ap (λ p. ends_in_cr p z) (ends-block room s)

-- A call on a reader whose stream is `whole`: what it stored is the first part of its translation.
pub record Gives (room : ℕ) (started : Bool) (whole : Bytes) (v : Stored Reader) : Type 0 where
  pub translates : v.bytes ++ unix (stream v.state) ≡ unix whole
  pub fits : length v.bytes ≤ room
  pub at_end : v.failed ≡ true → stream v.state ≡ []
  pub progress :
      v.failed ≡ false → room ≢ 0 → started ≡ false → (v.bytes ≢ []) ⊎ (stream v.state ≡ cr ∷ [])
  pub keeps : ends (stream v.state) ≡ ends whole

abbrev pub GivesSome : ℕ → Bool → Bytes → Option (Stored Reader) → Type 0
GivesSome room started whole none = ⊥
GivesSome room started whole (some v) = Gives room started whole v

pub prepend-Gives :
    (room m : ℕ) (started later : Bool) (b whole rest : Bytes) (o : Option (Stored Reader))
    → (b ≢ []) ⊎ ((m ≢ 0) × (b ≡ []) × (started ≡ false → later ≡ false))
    → length b + m ≤ room
    → b ++ unix rest ≡ unix whole
    → ends rest ≡ ends whole
    → GivesSome m later rest o
    → GivesSome room started whole (prepend b o)
prepend-Gives room m started later b whole rest none n l e k h = absurd h
prepend-Gives room m started later b whole rest (some v) n l e k h = record {
  translates = append_assoc b v.bytes (unix (stream v.state)) ∙ ap (λ t. b ++ t) h.translates ∙ e;
  fits = omega (arith, length-append b v.bytes, h.fits);
  at_end = h.at_end;
  progress = λ f _ s. elim n [
    | inl ne ↦ inl (append-nonempty b v.bytes ne)
    | inr (mz, bn, same) ↦ rw bn (h.progress f mz (same s))
  ];
  keeps = h.keeps ∙ k;
}

-- What Peek(2) finds at a CR: it is the last byte of `whole`, or the byte `d` comes after it.
pub record PeekedLast (whole : Bytes) (p : Reader × Option ℕ) : Type 0 where
  pub nothing : p.1 ≡ none
  pub stays : stream p.0 ≡ cr ∷ []
  pub is_last : whole ≡ cr ∷ []

pub record PeekedNext (whole : Bytes) (p : Reader × Option ℕ) : Type 0 where
  pub byte : ℕ
  pub after : Bytes
  pub found : p.1 ≡ some byte
  pub dropped : stream (drop_byte p.0) ≡ byte ∷ after
  pub is_whole : whole ≡ cr ∷ byte ∷ after

pub peek_two-cases :
    (rest : Bytes) (cs : List Bytes)
    → PeekedLast (cr ∷ (rest ++ concat cs)) (peek_two (cr ∷ rest) cs)
      ⊎ PeekedNext (cr ∷ (rest ++ concat cs)) (peek_two (cr ∷ rest) cs)
unfolding peek_two
peek_two-cases (d ∷ b) cs =
    inr (record { byte = d; after = b ++ concat cs; found = refl; dropped = refl; is_whole = refl })
peek_two-cases [] cs = elim (Option-cases (refill cs)) [
  | inl e ↦ inl (record {
    nothing = ground arith;
    stays = ground arith;
    is_last = ap (λ t. cr ∷ t) (refill-none cs e);
  })
  | inr ((d, t), e) ↦ inr (record {
    byte = d;
    after = stream t;
    found = ground arith;
    dropped = ground arith;
    is_whole = ap (λ t. cr ∷ t) (refill_lem cs d t e);
  })
]
