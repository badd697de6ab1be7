-- ===== src/Ascii/Tests.antt =====
-- Files sent and stored through server/ascii.go.
use ftp.Base.{false, some, none, [], ◌∷◌, ◌++◌, List, ◌≡◌, Bytes, cr, lf, refl, arith}
use ftp.Bufio.{concat}
use ftp.Ascii.{ascii_read, upload_read, copy}
use ftp.Ascii.Download.{crlf}
use ftp.Ascii.Download.Reads.{new_ascii_reader, copy-ascii_read, blank_line_split}
use ftp.Ascii.Upload.{unix}
use ftp.Ascii.Upload.Reads.{new_ascii_writer, copy-upload_read, upload_hangs}
use ftp.Ascii.RoundTrip.{round_trip}

-- "a LF b LF" in two chunks.
abbrev lines : List Bytes
lines = (97 ∷ lf ∷ []) ∷ (98 ∷ lf ∷ []) ∷ []

-- The same with CRLF, and one CR alone, cut between a CR and its LF.
abbrev network_lines : List Bytes
network_lines = (97 ∷ cr ∷ []) ∷ (lf ∷ 98 ∷ cr ∷ 99 ∷ cr ∷ lf ∷ []) ∷ []

abbrev sent_lines : List Bytes
sent_lines = (97 ∷ cr ∷ lf ∷ 98 ∷ cr ∷ []) ∷ (lf ∷ []) ∷ []

copy-ascii_read_example :
    copy (ascii_read 2) 9 (new_ascii_reader lines) ≡ some (crlf false (concat lines))
copy-ascii_read_example = copy-ascii_read 2 (λ e. cc) lines 9 (omega arith) refl

blank_line_split_example :
    copy (ascii_read 1) 9 (record {
      r = record { buffered = lf ∷ lf ∷ []; source = (98 ∷ []) ∷ [] };
      prev_was_cr = false;
      pending = none;
    })
    ≡ some (cr ∷ lf ∷ lf ∷ crlf false ([] ++ concat ((98 ∷ []) ∷ [])))
blank_line_split_example = blank_line_split [] ((98 ∷ []) ∷ []) 9 refl (omega arith)

copy-upload_read_example :
    copy (upload_read 1) 9 (new_ascii_writer network_lines) ≡ some (unix (concat network_lines))
copy-upload_read_example = copy-upload_read 1 (λ e. cc) network_lines 9 (omega arith) refl

upload_hangs_example : copy (upload_read 4) 100 (new_ascii_writer ((97 ∷ cr ∷ []) ∷ [])) ≡ none
upload_hangs_example = upload_hangs 4 100 ((97 ∷ cr ∷ []) ∷ []) refl

round_trip_example :
    (copy (ascii_read 3) 9 (new_ascii_reader lines) ≡ some (concat sent_lines))
    × (copy (upload_read 2) 9 (new_ascii_writer sent_lines) ≡ some (concat lines))
round_trip_example =
    round_trip 3 2 (λ e. cc) (λ e. cc) lines sent_lines 9 9 refl refl refl (omega arith)
      (omega arith)

unix_lines : unix (concat network_lines) ≡ 97 ∷ lf ∷ 98 ∷ cr ∷ 99 ∷ lf ∷ []
unix_lines = refl
