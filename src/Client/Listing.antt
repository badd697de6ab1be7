-- ===== src/Client/Listing.antt =====
-- directory.go: the parsers of the lines of a LIST reply, and the choice between them.
pub mod Dates
pub mod Fields
pub mod Listed
pub mod Whole
use ftp.Base.{
  ℕ, zero, suc, ◌+◌, ◌-◌, Bool, true, false, not, ◌&&◌, ◌||◌, Option, none, some, ◌>>=◌, List, [],
  ◌∷◌, ◌++◌, Bytes, text, bytes_eq, is_empty, is_digit, contains_byte, split, join, fields, length,
  get_elem?, drop, if◌then◌else◌, leb, ltb, ◌==◌, ℤ, pos, parse_int, has_prefix, trim_space, space,
  lf, cr,
}

pub data EntryType : Type 0 where
  file dir link unknown : EntryType

pub record Entry : Type 0 where
  pub name : Bytes
  pub kind : EntryType
  pub size : ℤ
  pub target : Bytes
  pub raw : Bytes

-- `Parse` of a ListingParser: the entry, if the line has its format.
abbrev pub ListingParser : Type 0
ListingParser = Bytes → Option Entry

-- `parseSize`
abbrev pub parse_size : Bytes → Option ℤ
parse_size = parse_int

-- The field at an index; every use is within the list.
abbrev pub field_at : List Bytes → ℕ → Bytes
field_at fs i = elim (get_elem? fs i) [ none ↦ [] | some f ↦ f ]

-- `isSymbolicPerms`
unfoldable pub is_symbolic_perms : Bytes → Bool
is_symbolic_perms [] = false
is_symbolic_perms (c ∷ s) =
    c == b'-'
    || (c == b'd' || (c == b'l' || (c == b'b' || (c == b'c' || (c == b'p' || c == b's')))))

unfoldable pub all_between : ℕ → ℕ → Bytes → Bool
all_between lo hi [] = true
all_between lo hi (c ∷ s) = (leb lo c && leb c hi) && all_between lo hi s

-- `isNumericPerms`
unfoldable pub is_numeric_perms : Bytes → Bool
unfolding all_between
is_numeric_perms perms =
    (leb 3 (length perms) && leb (length perms) 4) && all_between b'0' b'7' perms

-- `parseUnixType`
unfoldable pub parse_unix_type : Bytes → Bool → EntryType
parse_unix_type [] symbolic = file
parse_unix_type (c ∷ s) symbolic =
    if not symbolic then file else if c == b'd' then dir else if c == b'l' then link else file

abbrev has_size : List Bytes → ℕ → Bool
has_size fs i = elim (parse_size (field_at fs i)) [ none ↦ false | some _ ↦ true ]

-- `parseUnixLayout`: where the size stands, and where the name starts.
unfoldable pub parse_unix_layout : List Bytes → Option (ℕ × ℕ)
parse_unix_layout fs =
    if leb 9 (length fs) && has_size fs 4
    then some (4, 8)
    else if leb 8 (length fs) && has_size fs 3
    then some (3, 7)
    else none

-- strings.Cut at a separator
unfoldable pub cut_text : Bytes → Bytes → Option (Bytes × Bytes)
cut_text sep [] = if is_empty sep then some ([], []) else none
cut_text sep (c ∷ s) =
    let rest : Option (Bytes × Bytes) = elim (cut_text sep s) [
      | none ↦ none
      | some (x, y) ↦ some (c ∷ x, y)
    ] in
    if has_prefix (c ∷ s) sep then some ([], drop (length sep) (c ∷ s)) else rest

-- `parseUnixName`: the name, and the target of a link.
unfoldable pub parse_unix_name : EntryType → List Bytes → ℕ → Bytes × Bytes
unfolding cut_text
parse_unix_name link fs start =
    let full = join (text " ") (drop start fs) in
    elim (cut_text (text " -> ") full) [ none ↦ (full, []) | some parts ↦ parts ]
parse_unix_name _ fs start = (join (text " ") (drop start fs), [])

-- `parseUnixEntry`
unfoldable pub parse_unix_entry : Bytes → List Bytes → Option Entry
unfolding parse_unix_type parse_unix_layout parse_unix_name is_symbolic_perms is_numeric_perms
parse_unix_entry raw fs =
    let perms = field_at fs 0 in
    let symbolic = is_symbolic_perms perms in
    let kind = parse_unix_type perms symbolic in
    if not symbolic && not (is_numeric_perms perms) then none else do
      layout ← parse_unix_layout fs
      size ← parse_size (field_at fs layout.0)
      let name = parse_unix_name kind fs layout.1
      some (record { name = name.0; kind = kind; size = size; target = name.1; raw = raw })

-- `UnixParser.Parse`
unfoldable pub unix_parser : ListingParser
unfolding parse_unix_entry
unix_parser line =
    let fs = fields line in if ltb (length fs) 8 then none else parse_unix_entry line fs

-- One part of a date: one or two digits; two or four in the year.
abbrev is_day : Bytes → Bool
is_day p = (leb 1 (length p) && leb (length p) 2) && all_between b'0' b'9' p

abbrev is_year : Bytes → Bool
is_year p = (length p == 2 || length p == 4) && all_between b'0' b'9' p

unfoldable pub date_parts : List Bytes → Bool
unfolding all_between
date_parts (m ∷ d ∷ y ∷ []) = is_day m && (is_day d && is_year y)
date_parts _ = false

-- `isDOSDate`
unfoldable pub is_dos_date : Bytes → Bool
unfolding date_parts
is_dos_date s =
    if contains_byte b'-' s
    then date_parts (split b'-' s)
    else if contains_byte b'/' s
    then date_parts (split b'/' s)
    else false

-- `parseDOSEntry`
unfoldable pub parse_dos_entry : Bytes → List Bytes → Option Entry
parse_dos_entry raw fs =
    let name = join (text " ") (drop 3 fs) in
    if ltb (length fs) 4
    then none
    else if bytes_eq (field_at fs 2) (text "<DIR>")
    then some (record { name = name; kind = dir; size = pos 0; target = []; raw = raw })
    else do
      size ← parse_size (field_at fs 2)
      some (record { name = name; kind = file; size = size; target = []; raw = raw })

-- `DOSParser.Parse`
unfoldable pub dos_parser : ListingParser
unfolding parse_dos_entry is_dos_date
dos_parser line =
    let fs = fields line in
    if ltb (length fs) 4
    then none
    else if not (is_dos_date (field_at fs 0))
    then none
    else parse_dos_entry line fs

-- strings.IndexAny(line, "\t "): the parts before and after.
unfoldable pub cut_blank : Bytes → Option (Bytes × Bytes)
cut_blank [] = none
cut_blank (c ∷ s) =
    let rest : Option (Bytes × Bytes) = elim (cut_blank s) [
      | none ↦ none
      | some (x, y) ↦ some (c ∷ x, y)
    ] in
    if c == 9 || c == space then some ([], s) else rest

-- One fact of an EPLF line: the type and the size after it.
unfoldable pub eplf_fact : Bytes → EntryType × ℤ → EntryType × ℤ
eplf_fact [] (kind, size) = (kind, size)
eplf_fact (c ∷ s) (kind, size) =
    if c == b'/'
    then (dir, size)
    else if c == b's' && not (is_empty s)
    then (elim (parse_size s) [ none ↦ (kind, size) | some n ↦ (kind, n) ])
    else (kind, size)

unfoldable pub eplf_facts : List Bytes → EntryType × ℤ → EntryType × ℤ
unfolding eplf_fact
eplf_facts [] r = r
eplf_facts (f ∷ fs) r = eplf_facts fs (eplf_fact f r)

-- `parseEPLFEntry`, on the line without its `+`.
unfoldable pub parse_eplf_entry : Bytes → Bytes → Option Entry
unfolding eplf_facts cut_blank
parse_eplf_entry raw line = cut_blank line >>= λ parts.
    let name = trim_space parts.1 in
    let facts = eplf_facts (split b',' parts.0) (file, pos 0) in
    if is_empty name
    then none
    else some (record { name = name; kind = facts.0; size = facts.1; target = []; raw = raw })

-- `EPLFParser.Parse`
unfoldable pub eplf_parser : ListingParser
unfolding parse_eplf_entry
eplf_parser [] = none
eplf_parser (c ∷ s) = if c == b'+' then parse_eplf_entry (c ∷ s) s else none

unfoldable pub first_parse : List ListingParser → Bytes → Option Entry
first_parse [] line = none
first_parse (p ∷ ps) line = elim (p line) [ some x ↦ some x | none ↦ first_parse ps line ]

-- `CompositeParser.Parse`: the parsers see the line trimmed, the fallback keeps it whole.
unfoldable pub composite_parse : List ListingParser → Bytes → Option Entry
unfolding first_parse
composite_parse ps line =
    let trimmed = trim_space line in
    if is_empty trimmed then none else (elim (first_parse ps trimmed) [
      | some x ↦ some x
      | none ↦ some (record { name = line; kind = unknown; size = pos 0; target = []; raw = line })
    ])

unfoldable pub default_parsers : List ListingParser
unfolding eplf_parser dos_parser unix_parser
default_parsers = eplf_parser ∷ dos_parser ∷ unix_parser ∷ []

-- `parseListLine`
unfoldable pub parse_list_line : List ListingParser → Bytes → Option Entry
unfolding composite_parse default_parsers
parse_list_line [] line = composite_parse default_parsers line
parse_list_line (p ∷ ps) line = composite_parse (p ∷ ps) line

-- The line without the CR that ends it.
unfoldable pub drop_cr : Bytes → Bytes
drop_cr [] = []
drop_cr (c ∷ []) = if c == cr then [] else c ∷ []
drop_cr (c ∷ d ∷ s) = c ∷ drop_cr (d ∷ s)

abbrev pub max_token : ℕ
max_token = 65536

-- The lines that a bufio.Scanner gives for the parts between the LFs of its input, and whether it ends
-- without an error; an empty part at the end is no line, and a line that fills the buffer an error.
unfoldable pub scan_parts : List Bytes → List Bytes × Bool
unfolding drop_cr
scan_parts [] = ([], true)
scan_parts (p ∷ []) =
    if is_empty p
    then ([], true)
    else if leb max_token (length p)
    then ([], false)
    else (drop_cr p ∷ [], true)
scan_parts (p ∷ q ∷ ps) =
    let more = scan_parts (q ∷ ps) in
    if leb max_token (length p) then ([], false) else (drop_cr p ∷ more.0, more.1)

unfoldable pub scan_lines : Bytes → List Bytes × Bool
unfolding scan_parts
scan_lines s = scan_parts (split lf s)

unfoldable pub parse_lines : List ListingParser → List Bytes → List Entry
parse_lines ps [] = []
parse_lines ps (l ∷ ls) = elim (parse_list_line ps l) [
  | none ↦ parse_lines ps ls
  | some x ↦ x ∷ parse_lines ps ls
]

-- What `List` makes of the bytes of its data connection; `none` is the scanner's error.
unfoldable pub read_listing : List ListingParser → Bytes → Option (List Entry)
unfolding scan_lines parse_lines
read_listing ps s = let r = scan_lines s in if r.1 then some (parse_lines ps r.0) else none
