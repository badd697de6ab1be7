-- ===== src/Client/Facts.antt =====
-- mlst.go: entries of MLST and MLSD. Times are read by a parameter, time.Parse with the layout
-- 20060102150405.
pub mod Entries
pub mod Status
use ftp.Base.{
  ℕ, Bool, true, false, not, ◌&&◌, ◌||◌, Option, none, some, ◌>>=◌, List, [], ◌∷◌, Bytes, text,
  bytes_eq, is_empty, split, cut, length, if◌then◌else◌, leb, ltb, ◌==◌, ℤ, pos, negsuc, int_eq,
  parse_int, trim_space, to_lower, space,
}
use ftp.Client.Reply.{Response, byte_at}
use ftp.Client.Listing.{scan_lines}

pub record MlEntry (Time : Type 0) : Type 0 where
  pub name : Bytes
  pub kind : Bytes
  pub size : ℤ
  pub mod_time : Option Time
  pub perm : Bytes
  pub unix_mode : Bytes
  pub facts : List (Bytes × Bytes)  -- a map: the first pair of a key counts

unfoldable pub fact : List (Bytes × Bytes) → Bytes → Option Bytes
fact [] k = none
fact ((j, v) ∷ m) k = let later = fact m k in if bytes_eq j k then some v else later

abbrev or_empty : Option Bytes → Bytes
or_empty none = []
or_empty (some v) = v

-- One part of the facts, added to those before it.
unfoldable pub add_fact : Bytes → List (Bytes × Bytes) → List (Bytes × Bytes)
add_fact part m =
    let pair = trim_space part in
    if is_empty pair
    then m
    else (elim (cut b'=' pair) [ none ↦ m | some (k, v) ↦ (to_lower k, v) ∷ m ])

unfoldable pub add_facts : List Bytes → List (Bytes × Bytes) → List (Bytes × Bytes)
unfolding add_fact
add_facts [] m = m
add_facts (p ∷ ps) m = add_facts ps (add_fact p m)

unfoldable pub size_fact : Option Bytes → ℤ
size_fact none = pos 0
size_fact (some v) = elim (parse_int v) [ none ↦ pos 0 | some n ↦ n ]

abbrev first_part : List Bytes → Bytes
first_part [] = []
first_part (p ∷ _) = p

-- The line of the entry in the reply to MLST: the first that is no status line and not blank.
unfoldable pub entry_line : List Bytes → Bytes
entry_line [] = []
entry_line (l ∷ ls) =
    let later = entry_line ls in
    if leb 4 (length l) && (byte_at l 3 == b'-' || byte_at l 3 == space)
    then later
    else if is_empty (trim_space l)
    then later
    else trim_space l

module _ {Time : Type 0} (parse_time : Bytes → Option Time) where
  -- The time without its fraction of a second, if it has 14 bytes.
  unfoldable pub modify_fact : Option Bytes → Option Time
  modify_fact none = none
  modify_fact (some v) =
      let stamp = first_part (split b'.' v) in if length stamp == 14 then parse_time stamp else none

  unfoldable pub build_entry : Bytes → List (Bytes × Bytes) → MlEntry Time
  unfolding size_fact modify_fact fact
  build_entry name m = record {
    name = name;
    kind = to_lower (or_empty (fact m (text "type")));
    size = size_fact (fact m (text "size"));
    mod_time = modify_fact (fact m (text "modify"));
    perm = or_empty (fact m (text "perm"));
    unix_mode = or_empty (fact m (text "unix.mode"));
    facts = m;
  }

  -- `parseMLEntry`
  unfoldable pub parse_ml_entry : Bytes → Option (MlEntry Time)
  unfolding build_entry add_facts
  parse_ml_entry line = elim (cut space line) [
    | none ↦ none
    | some (facts, name) ↦ some (build_entry name (add_facts (split b';' facts) []))
  ]

  -- `MLStat`, once the response was read; `none` stands for its errors.
  unfoldable pub ml_stat : Response → Option (MlEntry Time)
  unfolding entry_line parse_ml_entry
  ml_stat r =
      if not (int_eq r.code (pos 250))
      then none
      else if ltb (length r.lines) 2
      then none
      else if is_empty (entry_line r.lines)
      then none
      else parse_ml_entry (entry_line r.lines)

  unfoldable pub parse_ml_lines : List Bytes → List (MlEntry Time)
  unfolding parse_ml_entry
  parse_ml_lines [] = []
  parse_ml_lines (l ∷ ls) =
      let line = trim_space l in
      let rest = parse_ml_lines ls in
      if is_empty line
      then rest
      else (elim (parse_ml_entry line) [ none ↦ rest | some x ↦ x ∷ rest ])

  -- What `MLList` makes of the bytes of its data connection; `none` is the scanner's error.
  unfoldable pub read_ml_listing : Bytes → Option (List (MlEntry Time))
  unfolding parse_ml_lines
  read_ml_listing s = let r = scan_lines s in if r.1 then some (parse_ml_lines r.0) else none
