-- ===== src/Ascii/Upload/Reads.antt =====
-- Calls of asciiWriter.Read (server/ascii.go), and whole uploads.
use ftp.Base.{
  ℕ, zero, suc, ◌-◌, ◌<◌, Bool, true, false, not, Option, none, some, List, [], ◌∷◌, ◌++◌, ◌≡◌, ◌≢◌,
  ◌⊎◌, inl, inr, refl, sym, ap, ◌∙◌, arith, Bytes, length, cr, Bool-cases, Option-cases, append-nil,
  length-append,
}
use ftp.Bufio.{Reader, stream, concat, fill, fill-stream, fill-none, fill-buffered}
use ftp.Ascii.{block, Stored, give, after_upload, upload_loop, upload_read, copy}
use ftp.Ascii.Download.{length-positive}
use ftp.Ascii.Upload.{unix, ends, Gives, GivesSome}
use ftp.Ascii.Upload.Rounds.{round-Gives}

upload_loop_end :
    (fuel room : ℕ) (started : Bool) (r : Reader)
    → fill r ≡ none
    → upload_loop (suc fuel) (suc room) started r ≡ give [] (not started) r
unfolding upload_loop
upload_loop_end fuel room started r e = ground arith

upload_loop_round :
    (fuel room : ℕ) (started : Bool) (r q : Reader)
    → fill r ≡ some q
    → upload_loop (suc fuel) (suc room) started r
      ≡ after_upload
          (λ m b t. upload_loop fuel m b t)
          (suc room - length (block cr (suc room) q.buffered).0)
          started
          (block cr (suc room) q.buffered).0
          q
          (block cr (suc room) q.buffered).1
unfolding upload_loop
upload_loop_round fuel room started r q e = ground arith

upload_loop-Gives :
    (fuel room : ℕ) (started : Bool) (r : Reader)
    → length (stream r) < fuel
    → GivesSome room started (stream r) (upload_loop fuel room started r)
unfolding upload_loop
upload_loop-Gives zero room started r short = elim short [ ]
upload_loop-Gives (suc fuel) zero started r short = record {
  translates = refl;
  fits = omega arith;
  at_end = λ e. cc;
  progress = λ _ n _. absurd (n refl);
  keeps = refl;
}
upload_loop-Gives (suc fuel) (suc room) started r short = elim (Option-cases (fill r)) [
  | inl e ↦ rw (upload_loop_end fuel room started r e) (record {
    translates = refl;
    fits = omega arith;
    at_end = λ _. fill-none r e;
    progress = λ f n b. absurd (ground arith);
    keeps = refl;
  })
  | inr (q, e) ↦
      let (c, b, filled) = fill-buffered r q e in
      let same : stream q ≡ stream r = fill-stream r q e in
      rw (upload_loop_round fuel room started r q e) (
        rw same at (
          round-Gives fuel (λ m t. upload_loop fuel m t) (λ m t. upload_loop-Gives fuel m t) started
            room c b q filled (omega (arith, short, ap length same))))
]

Gives-exists :
    (room : ℕ) (started : Bool) (whole : Bytes) (o : Option (Stored Reader))
    → GivesSome room started whole o
    → (v : Stored Reader) × (o ≡ some v) × Gives room started whole v
Gives-exists room started whole none h = absurd h
Gives-exists room started whole (some v) h = (v, refl, h)

-- A call of Read, with a slice of any length, on any reader: it returns, and what it stored, followed
-- by the translation of what is left, is the stream with each CR dropped that an LF follows. It fits
-- the slice; an error is returned at the stream's end only; with no error a byte at least is stored,
-- unless the slice is empty or a lone CR is left; and whether a CR ends the stream does not change.
pub upload_read-Gives :
    (room : ℕ) (r : Reader)
    → (v : Stored Reader) × (upload_read room r ≡ some v) × Gives room false (stream r) v
unfolding upload_read
upload_read-Gives room r =
    Gives-exists room false (stream r) _
      (upload_loop-Gives (suc (length (stream r))) room false r (omega arith))

copy_step :
    (fuel room : ℕ) (r : Reader) (v : Stored Reader) (rest : Bytes)
    → upload_read room r ≡ some v
    → v.failed ≡ false
    → copy (upload_read room) fuel v.state ≡ some rest
    → copy (upload_read room) (suc fuel) r ≡ some (v.bytes ++ rest)
unfolding copy
copy_step fuel room r v rest e f h = ground (arith, e, h)

copy_stop :
    (fuel room : ℕ) (r : Reader) (v : Stored Reader)
    → upload_read room r ≡ some v
    → v.failed ≡ true
    → copy (upload_read room) (suc fuel) r ≡ some v.bytes
unfolding copy
copy_stop fuel room r v e f = ground (arith, e)

copy_starves :
    (fuel room : ℕ) (r : Reader) (v : Stored Reader)
    → upload_read room r ≡ some v
    → v.failed ≡ false
    → copy (upload_read room) fuel v.state ≡ none
    → copy (upload_read room) (suc fuel) r ≡ none
unfolding copy
copy_starves fuel room r v e f h = ground (arith, e, h)

stored-nonempty :
    (v : Stored Reader)
    → (v.bytes ≢ []) ⊎ (stream v.state ≡ cr ∷ [])
    → ends (stream v.state) ≡ false
    → v.bytes ≢ []
stored-nonempty v (inl n) h = n
stored-nonempty v (inr e) h = absurd (ground (arith, ap ends e))

copies :
    (room : ℕ)
    → room ≢ 0
    → (fuel : ℕ) (r : Reader) → length (unix (stream r)) < fuel
    → ends (stream r) ≡ false
    → copy (upload_read room) fuel r ≡ some (unix (stream r))
copies room n zero r short h = elim short [ ]
copies room n (suc fuel) r short h =
    let (v, e, g) = upload_read-Gives room r in
    elim (Bool-cases v.failed) [
      | inl f ↦
          copy_stop fuel room r v e f
          ∙ ap some (
              sym (append-nil v.bytes)
              ∙ ap (λ t. v.bytes ++ unix t) (sym (g.at_end f))
              ∙ g.translates)
      | inr f ↦
          copy_step fuel room r v (unix (stream v.state)) e f (
            copies room n fuel v.state
              (omega (
                arith,
                ap length g.translates,
                length-append v.bytes (unix (stream v.state)),
                length-positive v.bytes (stored-nonempty v (g.progress f n refl) (g.keeps ∙ h)),
                short,
              ))
              (g.keeps ∙ h))
          ∙ ap some g.translates
    ]

-- The reader that `newASCIIWriter` makes on a connection.
abbrev pub new_ascii_writer : List Bytes → Reader
new_ascii_writer cs = record { buffered = []; source = cs }

-- An upload in ASCII whose bytes do not end in a CR, through a buffer of any size but 0, however they
-- arrive: with more calls of Read than the translation has bytes, the copy ends, and stores the bytes
-- without each CR that an LF follows.
pub copy-upload_read :
    (room : ℕ)
    → room ≢ 0
    → (cs : List Bytes) (fuel : ℕ) → length (unix (concat cs)) < fuel
    → ends (concat cs) ≡ false
    → copy (upload_read room) fuel (new_ascii_writer cs) ≡ some (unix (concat cs))
copy-upload_read room n cs fuel short h = copies room n fuel (new_ascii_writer cs) short h

starves :
    (room fuel : ℕ) (r : Reader) → ends (stream r) ≡ true → copy (upload_read room) fuel r ≡ none
unfolding copy
starves room zero r h = refl
starves room (suc fuel) r h =
    let (v, e, g) = upload_read-Gives room r in
    elim (Bool-cases v.failed) [
      | inl f ↦ absurd (ground (arith, ap ends (g.at_end f), g.keeps))
      | inr f ↦ copy_starves fuel room r v e f (starves room fuel v.state (g.keeps ∙ h))
    ]

-- An upload in ASCII whose bytes end in a CR never ends, whatever the buffer and the number of calls.
pub upload_hangs :
    (room fuel : ℕ) (cs : List Bytes)
    → ends (concat cs) ≡ true
    → copy (upload_read room) fuel (new_ascii_writer cs) ≡ none
upload_hangs room fuel cs h = starves room fuel (new_ascii_writer cs) h
