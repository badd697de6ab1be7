-- ===== src/Client/Reply.antt =====
-- control.go: how the client reads a reply, and sends a command.
use ftp.Base.{
  ℕ, zero, suc, ◌-◌, Bool, false, not, ◌&&◌, ◌||◌, none, some, List, [], ◌∷◌, ◌++◌, Bytes, bytes_eq,
  trim_right, is_eol, join, take, drop, get_elem?, length, if◌then◌else◌, leb, ltb, ◌==◌, cr, lf,
  space, ℤ, pos, negsuc, int_eq, parse_int, show_nat,
}

-- The lines that ReadString('\n') will return, each with its LF; bytes after the last LF are an error.
unfoldable pub to_lines : Bytes → List Bytes
to_lines [] = []
to_lines (c ∷ s) =
    let later = to_lines s in
    if c == lf then (lf ∷ []) ∷ later else (elim later [ [] ↦ [] | l ∷ ls ↦ (c ∷ l) ∷ ls ])

pub record Response : Type 0 where
  pub code : ℤ
  pub message : Bytes
  pub lines : List Bytes

-- `String`
abbrev pub response_string : Response → Bytes
response_string r = join (lf ∷ []) r.lines

unfoldable pub is_2xx : Response → Bool
is_2xx r = elim r.code [ pos n ↦ leb 200 n && ltb n 300 | negsuc _ ↦ false ]

-- Why no response was read.
pub data ReadError : Type 0 where
  end_of_input invalid_line invalid_code invalid_format unexpected_end mismatch : ReadError

-- A value or an error, with the lines that are left.
pub data Reading (A : Type 0) : Type 0 where
  got : A → List Bytes → Reading A
  bad : ReadError → List Bytes → Reading A

-- The byte at an index; every use is within the line.
abbrev pub byte_at : Bytes → ℕ → ℕ
byte_at s i = elim (get_elem? s i) [ none ↦ 0 | some c ↦ c ]

abbrev zeros : ℕ → Bytes
zeros zero = []
zeros (suc n) = b'0' ∷ zeros n

-- fmt's %03d
unfoldable pub three_wide : ℤ → Bytes
three_wide (pos n) = zeros (3 - length (show_nat n)) ++ show_nat n
three_wide (negsuc n) = b'-' ∷ (zeros (2 - length (show_nat (suc n))) ++ show_nat (suc n))

abbrev pub starts_with_space : Bytes → Bool
starts_with_space [] = false
starts_with_space (c ∷ s) = c == space

-- `readMultiLine`, with the lines read so far.
unfoldable pub read_multi_line : Bytes → List Bytes → List Bytes → Reading (List Bytes)
read_multi_line code kept [] = bad unexpected_end []
read_multi_line code kept (raw ∷ input) =
    let line = trim_right is_eol raw in
    let more = read_multi_line code (kept ++ line ∷ []) input in
    if starts_with_space line
    then more
    else if ltb (length line) 4 || not (bytes_eq (take 3 line) code)
    then bad mismatch input
    else if byte_at line 3 == space
    then got (kept ++ line ∷ []) input
    else if not (byte_at line 3 == b'-')
    then bad invalid_format input
    else more

-- The parts of a message: the lines longer than four bytes, without those.
unfoldable pub message_parts : List Bytes → List Bytes
message_parts [] = []
message_parts (l ∷ ls) =
    let rest = message_parts ls in if ltb 4 (length l) then drop 4 l ∷ rest else rest

unfoldable pub read_block : ℤ → Bytes → List Bytes → Reading Response
unfolding read_multi_line message_parts three_wide
read_block code line input = elim (read_multi_line (three_wide code) (line ∷ []) input) [
  | bad e rest ↦ bad e rest
  | got lines rest ↦
      got (record { code = code; message = join (lf ∷ []) (message_parts lines); lines = lines })
        rest
]

unfoldable pub read_response : List Bytes → Reading Response
unfolding read_block
read_response [] = bad end_of_input []
read_response (raw ∷ input) =
    let line = trim_right is_eol raw in
    if ltb (length line) 4 then bad invalid_line input else (elim (parse_int (take 3 line)) [
      | none ↦ bad invalid_code input
      | some code ↦
          if byte_at line 3 == space
          then got (record { code = code; message = drop 4 line; lines = line ∷ [] }) input
          else if not (byte_at line 3 == b'-')
          then bad invalid_format input
          else read_block code line input
    ])

-- What `sendCommand` writes: the command with its arguments.
unfoldable pub command_line : Bytes → List Bytes → Bytes
command_line command [] = command ++ cr ∷ lf ∷ []
command_line command (a ∷ args) =
    command ++ (space ∷ (join (space ∷ []) (a ∷ args) ++ cr ∷ lf ∷ []))

-- The response to a command, or the protocol error that it is.
pub data Reply : Type 0 where
  as_expected protocol_error : Response → Reply

unfoldable pub expect_code : ℤ → Response → Reply
expect_code expected r = if int_eq r.code expected then as_expected r else protocol_error r

unfoldable pub expect_2xx : Response → Reply
unfolding is_2xx
expect_2xx r = if is_2xx r then as_expected r else protocol_error r
