-- ===== src/Session/Text.antt =====
-- How the handlers of server/session*.go print: replies, and fmt's %q for paths, where bytes from 128 up
-- are left as they are.
use ftp.Base.{
  cr, lf, space, show_nat, ℕ, ◌+◌, ◌-◌, ◌/◌, ◌%◌, Bytes, [], ◌∷◌, ◌++◌, text, ltb, ◌==◌, ◌||◌,
  if◌then◌else◌, ◌≡◌, refl,
}
use ftp.Session.State.{Out, reply_line, cont_line, raw_line}

hex_digit : ℕ → ℕ
hex_digit n = if ltb n 10 then b'0' + n else b'a' + (n - 10)

abbrev escaped : ℕ → Bytes
escaped c = b'\\' ∷ c ∷ []

quote_byte : ℕ → Bytes
unfolding hex_digit
quote_byte c =
    if c == b'"' || c == b'\\'
    then escaped c
    else if c == 7
    then escaped b'a'
    else if c == 8
    then escaped b'b'
    else if c == 9
    then escaped b't'
    else if c == 10
    then escaped b'n'
    else if c == 11
    then escaped b'v'
    else if c == 12
    then escaped b'f'
    else if c == 13
    then escaped b'r'
    else if ltb c 32 || c == 127
    then b'\\' ∷ b'x' ∷ hex_digit (c / 16) ∷ hex_digit (c % 16) ∷ []
    else c ∷ []

quote_onto : Bytes → Bytes
quote_onto [] = b'"' ∷ []
quote_onto (c ∷ s) = quote_byte c ++ quote_onto s

unfoldable pub quote : Bytes → Bytes
unfolding quote_onto quote_byte
quote s = b'"' ∷ quote_onto s

quotes : quote (text "/a\"b") ≡ text "\"/a\\\"b\""
unfolding quote text
quotes = refl

-- The bytes of what is written to the control connection.
unfoldable pub print_out : Out → Bytes
print_out (reply_line code message) = show_nat code ++ (space ∷ (message ++ cr ∷ lf ∷ []))
print_out (cont_line code message) = show_nat code ++ (b'-' ∷ (message ++ cr ∷ lf ∷ []))
print_out (raw_line message) = space ∷ (message ++ cr ∷ lf ∷ [])
