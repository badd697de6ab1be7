-- ===== src/Client/Listing/Listed.antt =====
-- The lines that LIST sends (printListEntry of server/session_file.go), as the client reads them
-- (directory.go).
use ftp.Base.{
  Bool, true, false, ◌^◌, ◌<◌, Bytes, List, [], ◌∷◌, ◌++◌, ◌≡◌, refl, ap, sym, ◌∙◌, arith, false,
  some, none, All, text, join, show_nat, space, cr, lf, fields, fields-join, trim_space,
  trim_space-join, IsWord, Spaceless, space_width, space_width-plain, may_space, pos, if◌then◌else◌,
  append_assoc,
}
use ftp.Session.State.{FileInfo}
use ftp.Session.File.{list_entry}
use ftp.Client.Listing.{
  Entry, file, dir, eplf_parser, dos_parser, unix_parser, parse_list_line, default_parsers,
}
use ftp.Client.Listing.Dates.{is_dos_date-letter}
use ftp.Client.Listing.Fields.{
  show_nat-IsWord, type_letter, dos_parser-none, eplf_parser-none, unix_parser-fields,
  first_parse-third, composite_parse-found, parse_unix_entry-words,
}

-- A file or a directory whose mode starts with its letter, with a time of three words, and a name of
-- words with one space between them.
pub record IsListable (f : FileInfo) : Type 0 where
  pub perms : Bytes
  pub month : Bytes
  pub day : Bytes
  pub clock : Bytes
  pub first : Bytes
  pub more : List Bytes
  pub mode_eq : f.mode ≡ type_letter f.is_dir ∷ perms
  pub time_eq : f.list_time ≡ month ++ space ∷ (day ++ space ∷ clock)
  pub name_eq : f.name ≡ join (space ∷ []) (first ∷ more)
  pub perms_spaceless : Spaceless perms
  pub month_word : IsWord month
  pub day_word : IsWord day
  pub clock_word : IsWord clock
  pub first_word : IsWord first
  pub more_words : All IsWord more
  pub fits : f.size < 2 ^ 63

-- The line of an entry with its end, by its parts.
abbrev entry_text : Bytes → Bytes → Bytes → Bytes → Bytes
entry_text mode size time name =
    mode
    ++ (text " 1 owner group "
        ++ (size ++ (text " " ++ (time ++ (text " " ++ (name ++ (cr ∷ lf ∷ [])))))))

type_letter-plain : (is_dir : Bool) → may_space (type_letter is_dir) ≡ false
type_letter-plain true = refl
type_letter-plain false = refl

module _ {f : FileInfo} (h : IsListable f) where
  abbrev pub mode_word : Bytes
  mode_word = type_letter f.is_dir ∷ h.perms

  -- The words of the line after the mode.
  abbrev pub later_words : List Bytes
  later_words =
      text "1"
      ∷ text "owner"
      ∷ text "group"
      ∷ show_nat f.size
      ∷ h.month
      ∷ h.day
      ∷ h.clock
      ∷ h.first
      ∷ h.more

  abbrev pub line_of_file : Bytes
  line_of_file = join (space ∷ []) (mode_word ∷ later_words)

  pub list_entry-line : list_entry f ≡ line_of_file ++ cr ∷ lf ∷ []
  unfolding list_entry text join
  list_entry-line =
      (λ i. entry_text (h.mode_eq i) (show_nat f.size) (h.time_eq i) (h.name_eq i))
      ∙ simp append_assoc

  pub mode_word-IsWord : IsWord mode_word
  mode_word-IsWord = (
    cc,
    (
      space_width-plain (type_letter f.is_dir) h.perms (type_letter-plain f.is_dir),
      h.perms_spaceless,
    ),
  )

  pub later_words-IsWords : All IsWord later_words
  unfolding text space_width
  later_words-IsWords = (
    (cc, (refl, tt)),
    (
      (cc, (refl, (refl, (refl, (refl, (refl, tt)))))),
      (
        (cc, (refl, (refl, (refl, (refl, (refl, tt)))))),
        (
          show_nat-IsWord f.size,
          (h.month_word, (h.day_word, (h.clock_word, (h.first_word, h.more_words)))),
        ),
      ),
    ),
  )

  line_fields : fields line_of_file ≡ mode_word ∷ later_words
  line_fields = fields-join (mode_word ∷ later_words) (mode_word-IsWord, later_words-IsWords)

  line_trimmed : trim_space line_of_file ≡ line_of_file
  line_trimmed = trim_space-join mode_word later_words mode_word-IsWord later_words-IsWords

  unfoldable pub entry_of : Entry
  entry_of = record {
    name = f.name;
    kind = if f.is_dir then dir else file;
    size = pos f.size;
    target = [];
    raw = line_of_file;
  }

  no_eplf : eplf_parser line_of_file ≡ none
  unfolding join
  no_eplf = eplf_parser-none (type_letter f.is_dir) _ (ground arith)

  no_dos : dos_parser line_of_file ≡ none
  no_dos =
      dos_parser-none line_of_file mode_word later_words line_fields
        (is_dos_date-letter (type_letter f.is_dir) h.perms (ground arith))

  unix_entry : unix_parser line_of_file ≡ some entry_of
  unfolding entry_of
  unix_entry =
      unix_parser-fields line_of_file (mode_word ∷ later_words) line_fields (ground arith)
      ∙ parse_unix_entry-words h.perms h.month h.day h.clock h.first line_of_file h.more f.size
          f.is_dir h.fits
      ∙ ap
          (λ n. some (record {
            name = n;
            kind = if f.is_dir then dir else file;
            size = pos f.size;
            target = [];
            raw = line_of_file;
          }))
          (sym h.name_eq)

  -- The line is read as the entry of its file.
  pub parse_list_line-line : parse_list_line [] line_of_file ≡ some entry_of
  unfolding parse_list_line join
  parse_list_line-line =
      composite_parse-found default_parsers line_of_file line_of_file entry_of line_trimmed refl (
        first_parse-third eplf_parser dos_parser unix_parser line_of_file entry_of no_eplf no_dos
          unix_entry)
