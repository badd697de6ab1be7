-- ===== src/Client/Listing/Fields.antt =====
-- The parsers of directory.go on lines of known words.
use ftp.Base.{
  ℕ, ◌^◌, ◌<◌, Bytes, Bool, List, [], ◌∷◌, ◌≡◌, refl, arith, true, false, some, none, All, text,
  join, show_nat, space, fields, trim_space, IsWord, may_space, plain-Spaceless, is_digit,
  show_nat-digits, show_nat-ne-nil, parse_int-show_nat, pos, parse_int, if◌then◌else◌, is_empty,
  length, leb, ltb, ◌==◌,
}
use ftp.Client.Listing.{
  ListingParser, Entry, file, dir, eplf_parser, dos_parser, unix_parser, composite_parse,
  first_parse, is_dos_date, parse_unix_entry, parse_unix_layout, has_size, parse_size,
}

digits-spaceless : (s : Bytes) → All (λ c. is_digit c ≡ true) s → All (λ c. may_space c ≡ false) s
digits-spaceless [] h = tt
digits-spaceless (c ∷ s) h = (ground arith, digits-spaceless s h.1)

pub show_nat-IsWord : (n : ℕ) → IsWord (show_nat n)
show_nat-IsWord n = (
  show_nat-ne-nil n,
  plain-Spaceless (show_nat n) (digits-spaceless (show_nat n) (show_nat-digits n)),
)

abbrev pub type_letter : Bool → ℕ
type_letter is_dir = if is_dir then b'd' else b'-'

-- A line whose first word is no date is not of the DOS format.
pub dos_parser-none :
    (line p : Bytes) (ps : List Bytes)
    → fields line ≡ p ∷ ps
    → is_dos_date p ≡ false
    → dos_parser line ≡ none
unfolding dos_parser
dos_parser-none line p ps e d = rw (dos_parser, e, d) (ground arith)

pub eplf_parser-none : (c : ℕ) (s : Bytes) → c == b'+' ≡ false → eplf_parser (c ∷ s) ≡ none
unfolding eplf_parser
eplf_parser-none c s h = rw (eplf_parser, h) refl

module _ (perms month day clock first line : Bytes) (more : List Bytes) (n : ℕ) where
  abbrev pub words_of : ℕ → List Bytes
  words_of c =
      (c ∷ perms)
      ∷ text "1"
      ∷ text "owner"
      ∷ text "group"
      ∷ show_nat n
      ∷ month
      ∷ day
      ∷ clock
      ∷ first
      ∷ more

  has_size-nat : (c : ℕ) → parse_int (show_nat n) ≡ some (pos n) → has_size (words_of c) 4 ≡ true
  has_size-nat c e = rw (has_size, e) refl

  parse_unix_layout-words : (c : ℕ) → n < 2 ^ 63 → parse_unix_layout (words_of c) ≡ some (4, 8)
  unfolding parse_unix_layout
  parse_unix_layout-words c fits =
      let sized : has_size (words_of c) 4 ≡ true = has_size-nat c (parse_int-show_nat n fits) in
      let long : leb 9 (length (words_of c)) ≡ true = ground arith in
      rw (parse_unix_layout, long, sized) refl

  pub parse_unix_entry-words :
      (is_dir : Bool)
      → n < 2 ^ 63
      → parse_unix_entry line (words_of (type_letter is_dir))
        ≡ some (record {
          name = join (space ∷ []) (first ∷ more);
          kind = if is_dir then dir else file;
          size = pos n;
          target = [];
          raw = line;
        })
  unfolding parse_unix_entry text
  parse_unix_entry-words true fits =
      rw (parse_unix_layout-words b'd' fits, parse_size, parse_int-show_nat n fits) refl
  parse_unix_entry-words false fits =
      rw (parse_unix_layout-words b'-' fits, parse_size, parse_int-show_nat n fits) refl

pub unix_parser-fields :
    (line : Bytes) (fs : List Bytes)
    → fields line ≡ fs
    → ltb (length fs) 8 ≡ false
    → unix_parser line ≡ parse_unix_entry line fs
unfolding unix_parser
unix_parser-fields line fs e l = rw (unix_parser, e, l) refl

pub first_parse-third :
    (p q r : ListingParser) (line : Bytes) (x : Entry)
    → p line ≡ none
    → q line ≡ none
    → r line ≡ some x
    → first_parse (p ∷ q ∷ r ∷ []) line ≡ some x
unfolding first_parse
first_parse-third p q r line x e1 e2 e3 = rw (first_parse, e1, e2, e3) refl

pub composite_parse-found :
    (ps : List ListingParser) (line trimmed : Bytes) (x : Entry)
    → trim_space line ≡ trimmed
    → is_empty trimmed ≡ false
    → first_parse ps trimmed ≡ some x
    → composite_parse ps line ≡ some x
unfolding composite_parse
composite_parse-found ps line trimmed x t n e = rw (composite_parse, t, n, e) refl
