-- ===== src/Client/Printed.antt =====
-- What the server prints (server/session.go), the client reads (control.go).
use ftp.Base.{
  ltb, length, take, ℕ, ◌+◌, ◌/◌, ◌%◌, ◌≤◌, true, false, List, [], ◌∷◌, ◌++◌, map, ◌≡◌, refl, ap,
  ◌∙◌, arith, Bytes, is_eol, cr, lf, space, show_nat_three, parse_int_three, trim_right, trim_line,
  join, append_assoc, All, pos, bytes_eq, bytes_eq_refl,
}
use ftp.Session.State.{Out, reply_line, cont_line, raw_line}
use ftp.Session.Text.{print_out}
use ftp.Client.Reply.{
  starts_with_space, byte_at, to_lines, got, three_wide, read_multi_line, message_parts, read_block,
  read_response,
}

-- A text with no line end in it.
abbrev pub IsText : Bytes → Type 0
IsText = All (λ c. is_eol c ≡ false)

-- A line with a code of three digits and the byte after it.
abbrev pub line_of : ℕ → ℕ → Bytes → Bytes
line_of code sep m = (b'0' + code / 100) ∷ (b'0' + code / 10 % 10) ∷ (b'0' + code % 10) ∷ sep ∷ m

line_of-IsText :
    (code sep : ℕ) (m : Bytes) → is_eol sep ≡ false → IsText m → IsText (line_of code sep m)
line_of-IsText code sep m e h = (ground arith, (ground arith, (ground arith, (e, h))))

pub to_lines-line :
    (line : Bytes)
    → IsText line
    → (rest : Bytes) → to_lines (line ++ cr ∷ lf ∷ rest) ≡ (line ++ cr ∷ lf ∷ []) ∷ to_lines rest
unfolding to_lines
to_lines-line [] h rest = refl
to_lines-line (c ∷ line) h rest = ground (arith, to_lines-line line h.1 rest)

-- The line of an output, without its end.
abbrev pub line_text : Out → Bytes
line_text (reply_line code m) = line_of code space m
line_text (cont_line code m) = line_of code b'-' m
line_text (raw_line m) = space ∷ m

-- Its code has three digits and its message is a text.
abbrev pub IsPrintable : Out → Type 0
IsPrintable (reply_line code m) = (100 ≤ code) × (code ≤ 999) × IsText m
IsPrintable (cont_line code m) = (100 ≤ code) × (code ≤ 999) × IsText m
IsPrintable (raw_line m) = IsText m

print_out-line :
    (o : Out) → IsPrintable o → (rest : Bytes) → print_out o ++ rest ≡ line_text o ++ cr ∷ lf ∷ rest
unfolding print_out
print_out-line (reply_line code m) (low, high, h) rest =
    rw (show_nat_three code low high) (ap (line_of code space) (append_assoc m (cr ∷ lf ∷ []) rest))
print_out-line (cont_line code m) (low, high, h) rest =
    rw (show_nat_three code low high) (ap (line_of code b'-') (append_assoc m (cr ∷ lf ∷ []) rest))
print_out-line (raw_line m) h rest = ap (λ t. space ∷ t) (append_assoc m (cr ∷ lf ∷ []) rest)

line_text-IsText : (o : Out) → IsPrintable o → IsText (line_text o)
line_text-IsText (reply_line code m) (low, high, h) = line_of-IsText code space m refl h
line_text-IsText (cont_line code m) (low, high, h) = line_of-IsText code b'-' m refl h
line_text-IsText (raw_line m) h = (refl, h)

-- The next line that the client reads is the one printed.
to_lines-print_out :
    (o : Out)
    → IsPrintable o
    → (rest : Bytes)
    → to_lines (print_out o ++ rest) ≡ (line_text o ++ cr ∷ lf ∷ []) ∷ to_lines rest
to_lines-print_out o h rest =
    ap to_lines (print_out-line o h rest) ∙ to_lines-line (line_text o) (line_text-IsText o h) rest

read_single :
    (code : ℕ) (m raw : Bytes) (input : List Bytes)
    → 100 ≤ code
    → code ≤ 999
    → trim_right is_eol raw ≡ line_of code space m
    → read_response (raw ∷ input)
      ≡ got (record { code = pos code; message = m; lines = line_of code space m ∷ [] }) input
unfolding read_response
read_single code m raw input low high e = rw e (ground (arith, parse_int_three code low high))

-- A reply of one line with a code of three digits and a text as its message, printed by the server and
-- followed by anything, is read by the client as that code and message, and nothing more is read.
pub read_response-reply_line :
    (code : ℕ) (m : Bytes)
    → 100 ≤ code
    → code ≤ 999
    → IsText m
    → (rest : Bytes)
    → read_response (to_lines (print_out (reply_line code m) ++ rest))
      ≡ got
          (record { code = pos code; message = m; lines = line_of code space m ∷ [] })
          (to_lines rest)
read_response-reply_line code m low high h rest =
    ap read_response (to_lines-print_out (reply_line code m) (low, high, h) rest)
    ∙ read_single code m _ (to_lines rest) low high
        (trim_line (line_of code space m) (line_of-IsText code space m refl h))

-- The lines between the first and the last one of a long reply.
abbrev pub IsMiddle : ℕ → Out → Type 0
IsMiddle code (reply_line k m) = ⊥
IsMiddle code (cont_line k m) = (k ≡ code) × IsText m
IsMiddle code (raw_line m) = IsText m

abbrev pub print_all : List Out → Bytes
print_all [] = []
print_all (o ∷ os) = print_out o ++ print_all os

three_wide-code :
    (code : ℕ)
    → 100 ≤ code
    → code ≤ 999
    → three_wide (pos code)
      ≡ (b'0' + code / 100) ∷ (b'0' + code / 10 % 10) ∷ (b'0' + code % 10) ∷ []
unfolding three_wide
three_wide-code code low high = rw (show_nat_three code low high) refl

read_dash :
    (code line raw : Bytes) (kept input : List Bytes)
    → trim_right is_eol raw ≡ line
    → starts_with_space line ≡ false
    → ltb (length line) 4 ≡ false
    → bytes_eq (take 3 line) code ≡ true
    → byte_at line 3 ≡ b'-'
    → read_multi_line code kept (raw ∷ input) ≡ read_multi_line code (kept ++ line ∷ []) input
unfolding read_multi_line
read_dash code line raw kept input e a b c d = rw e (ground arith)

module _ (code : ℕ) (low : 100 ≤ code) (high : code ≤ 999) where
  IsMiddle-IsPrintable : (o : Out) → IsMiddle code o → IsPrintable o
  IsMiddle-IsPrintable (reply_line k m) h = absurd h
  IsMiddle-IsPrintable (cont_line k m) (e, h) = (rw e low, rw e high, h)
  IsMiddle-IsPrintable (raw_line m) h = h

  read_last :
      (m raw : Bytes) (kept input : List Bytes)
      → trim_right is_eol raw ≡ line_of code space m
      → read_multi_line (three_wide (pos code)) kept (raw ∷ input)
        ≡ got (kept ++ line_of code space m ∷ []) input
  unfolding read_multi_line
  read_last m raw kept input e =
      rw (e, three_wide-code code low high)
        (ground (
          arith,
          bytes_eq_refl ((b'0' + code / 100) ∷ (b'0' + code / 10 % 10) ∷ (b'0' + code % 10) ∷ []),
        ))

  read_middle :
      (o : Out) (raw : Bytes) (kept input : List Bytes)
      → IsMiddle code o
      → trim_right is_eol raw ≡ line_text o
      → read_multi_line (three_wide (pos code)) kept (raw ∷ input)
        ≡ read_multi_line (three_wide (pos code)) (kept ++ line_text o ∷ []) input
  unfolding read_multi_line
  read_middle (reply_line k m) raw kept input h e = absurd h
  read_middle (cont_line k m) raw kept input (f, h) e =
      read_dash (three_wide (pos code)) (line_text (cont_line k m)) raw kept input e (ground arith)
        (ground arith)
        (rw (f, three_wide-code code low high)
          (bytes_eq_refl ((b'0' + code / 100) ∷ (b'0' + code / 10 % 10) ∷ (b'0' + code % 10) ∷ [])))
        refl
  read_middle (raw_line m) raw kept input h e = rw e refl

  read_multi_line-print_all :
      (os : List Out) (m : Bytes) (kept : List Bytes) (rest : Bytes)
      → All (IsMiddle code) os
      → IsText m
      → read_multi_line
          (three_wide (pos code))
          kept
          (to_lines (print_all os ++ (print_out (reply_line code m) ++ rest)))
        ≡ got (kept ++ (map line_text os ++ line_of code space m ∷ [])) (to_lines rest)
  read_multi_line-print_all [] m kept rest hs h =
      ap (read_multi_line (three_wide (pos code)) kept)
        (to_lines-print_out (reply_line code m) (low, high, h) rest)
      ∙ read_last m _ kept (to_lines rest)
          (trim_line (line_of code space m) (line_of-IsText code space m refl h))
  read_multi_line-print_all (o ∷ os) m kept rest (ho, hs) h =
      let p = IsMiddle-IsPrintable o ho in
      let later = print_all os ++ (print_out (reply_line code m) ++ rest) in
      ap (λ t. read_multi_line (three_wide (pos code)) kept (to_lines t))
        (append_assoc (print_out o) (print_all os) (print_out (reply_line code m) ++ rest))
      ∙ ap (read_multi_line (three_wide (pos code)) kept) (to_lines-print_out o p later)
      ∙ read_middle o _ kept (to_lines later) ho (trim_line (line_text o) (line_text-IsText o p))
      ∙ read_multi_line-print_all os m (kept ++ line_text o ∷ []) rest hs h
      ∙ ap (λ t. got t (to_lines rest))
          (append_assoc kept (line_text o ∷ []) (map line_text os ++ line_of code space m ∷ []))

  read_first :
      (m raw : Bytes) (input lines left : List Bytes)
      → trim_right is_eol raw ≡ line_of code b'-' m
      → read_multi_line (three_wide (pos code)) (line_of code b'-' m ∷ []) input ≡ got lines left
      → read_response (raw ∷ input)
        ≡ got
            (record {
              code = pos code;
              message = join (lf ∷ []) (message_parts lines);
              lines = lines;
            })
            left
  unfolding read_response read_block
  read_first m raw input lines left e f = rw e (ground (arith, parse_int_three code low high, f))

  -- A reply of several lines, as the server prints it: its first line with a code of three digits and
  -- a dash, any lines with that code and a dash or with a space in front, and its last line with the
  -- code and a space, all messages texts. Followed by anything, it is read by the client as one
  -- response of that code with these lines, and nothing more is read.
  pub read_response-print_all :
      (first last : Bytes) (os : List Out) (rest : Bytes)
      → IsText first
      → All (IsMiddle code) os
      → IsText last
      → read_response (
          to_lines (
            print_out (cont_line code first)
            ++ (print_all os ++ (print_out (reply_line code last) ++ rest))))
        ≡ got
            (record {
              code = pos code;
              message = join (lf ∷ []) (
                  message_parts
                    (line_of code b'-' first ∷ (map line_text os ++ line_of code space last ∷ [])));
              lines = line_of code b'-' first ∷ (map line_text os ++ line_of code space last ∷ []);
            })
            (to_lines rest)
  read_response-print_all first last os rest hf hs hl =
      ap read_response (to_lines-print_out (cont_line code first) (low, high, hf) _)
      ∙ read_first first _ _ _ _
          (trim_line (line_of code b'-' first) (line_of-IsText code b'-' first refl hf))
          (read_multi_line-print_all os last (line_of code b'-' first ∷ []) rest hs hl)
