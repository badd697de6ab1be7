-- ===== src/Ascii/RoundTrip.antt =====
-- A file that is sent by asciiReader and stored by asciiWriter (server/ascii.go).
use ftp.Base.{
  ℕ, ◌<◌, Bool, true, false, not, ◌&&◌, some, List, [], ◌∷◌, ◌≡◌, ◌≢◌, refl, sym, ap, ◌∙◌, arith,
  Bytes, ◌==◌, length, cr,
}
use ftp.Bufio.{concat}
use ftp.Ascii.{upload_read, copy, ascii_read}
use ftp.Ascii.Download.{crlf, blank_free}
use ftp.Ascii.Download.Reads.{new_ascii_reader, copy-ascii_read}
use ftp.Ascii.Upload.{unix, ends}
use ftp.Ascii.Upload.Reads.{new_ascii_writer, copy-upload_read}

-- No byte is a CR.
abbrev pub cr_free : Bytes → Bool
cr_free [] = true
cr_free (c ∷ s) = not (c == cr) && cr_free s

unix-crlf : (s : Bytes) → cr_free s ≡ true → unix (crlf false s) ≡ s
unix-crlf [] h = refl
unix-crlf (c ∷ s) h = ground (arith, unix-crlf s)

ends-crlf : (s : Bytes) → cr_free s ≡ true → ends (crlf false s) ≡ false
ends-crlf [] h = refl
ends-crlf (c ∷ s) h = ground (arith, ends-crlf s)

-- A file with no CR and no blank line, sent in ASCII and stored from there in ASCII, through buffers
-- of any sizes but 0 and in any chunks: with more calls of Read than bytes on either side, the
-- download sends what is `sent`, and the upload stores the file.
pub round_trip :
    (room room' : ℕ)
    → room ≢ 0
    → room' ≢ 0
    → (file sent : List Bytes) (fuel fuel' : ℕ) → blank_free (concat file) ≡ true
    → cr_free (concat file) ≡ true
    → concat sent ≡ crlf false (concat file)
    → length (concat sent) < fuel
    → length (concat file) < fuel'
    → (copy (ascii_read room) fuel (new_ascii_reader file) ≡ some (concat sent))
      × (copy (upload_read room') fuel' (new_ascii_writer sent) ≡ some (concat file))
round_trip room room' n n' file sent fuel fuel' b c s short short' =
    let back : unix (concat sent) ≡ concat file = ap unix s ∙ unix-crlf (concat file) c in
    (
      copy-ascii_read room n file fuel (rw s at short) b ∙ ap some (sym s),
      copy-upload_read room' n' sent fuel' (omega (arith, ap length back))
            (ap ends s ∙ ends-crlf (concat file) c)
          ∙ ap some back,
    )
