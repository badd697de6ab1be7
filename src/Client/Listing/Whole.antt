-- ===== src/Client/Listing/Whole.antt =====
-- A whole listing, from the handler's lines (server/session_file.go) to the client's entries
-- (directory.go).
use ftp.Base.{
  ℕ, ◌==◌, leb, false, ◌≤◌, ◌<◌, Bytes, List, [], ◌∷◌, ◌++◌, map, ◌≡◌, refl, ap, sym, ◌∙◌, arith,
  true, false, some, All, All-append, join, space, cr, lf, IsWord, Spaceless, space_width, length,
  length-append, leb, Lacks, split, split-part, split-cons, append_assoc,
}
use ftp.Session.State.{FileInfo, Env, ok}
use ftp.Session.File.{list_entry, listing}
use ftp.Client.Listing.{
  Entry, drop_cr, max_token, scan_parts, scan_lines, parse_lines, read_listing,
}
use ftp.Client.Listing.Listed.{
  IsListable, line_of_file, entry_of, list_entry-line, parse_list_line-line, mode_word-IsWord,
  later_words-IsWords, mode_word, later_words,
}

not_space : (c : ℕ) (s : Bytes) → space_width (c ∷ s) ≡ 0 → c == lf ≡ false
unfolding space_width
not_space c [] h = ground arith
not_space c (b ∷ []) h = ground arith
not_space c (b ∷ a ∷ s) h = ground arith

Spaceless-Lacks : (s : Bytes) → Spaceless s → Lacks lf s
Spaceless-Lacks [] h = tt
Spaceless-Lacks (c ∷ s) h = (not_space c s h.0, Spaceless-Lacks s h.1)

join-Lacks : (ws : List Bytes) → All IsWord ws → Lacks lf (join (space ∷ []) ws)
unfolding join
join-Lacks [] h = tt
join-Lacks (w ∷ []) h = Spaceless-Lacks w h.0.1
join-Lacks (w ∷ v ∷ ws) h =
    All-append _ w _ (Spaceless-Lacks w h.0.1) (refl, join-Lacks (v ∷ ws) h.1)

drop_cr-line : (line : Bytes) → drop_cr (line ++ cr ∷ []) ≡ line
unfolding drop_cr
drop_cr-line [] = refl
drop_cr-line (c ∷ []) = refl
drop_cr-line (c ∷ d ∷ line) = ap (λ t. c ∷ t) (drop_cr-line (d ∷ line))

scan_parts-cons :
    (p q : Bytes) (ps : List Bytes)
    → length p < max_token
    → scan_parts (p ∷ q ∷ ps) ≡ (drop_cr p ∷ (scan_parts (q ∷ ps)).0, (scan_parts (q ∷ ps)).1)
unfolding scan_parts
scan_parts-cons p q ps h =
    let short : leb max_token (length p) ≡ false = ground arith in rw (scan_parts, short) refl

scan_parts-more :
    (p : Bytes) (rest : List Bytes)
    → (q : Bytes) × (ps : List Bytes) × (rest ≡ q ∷ ps)
    → length p < max_token
    → scan_parts (p ∷ rest) ≡ (drop_cr p ∷ (scan_parts rest).0, (scan_parts rest).1)
scan_parts-more p rest (q, ps, e) h = rw e (scan_parts-cons p q ps h)

-- A line that fits the scanner's buffer is scanned, and then the rest.
scan_lines-line :
    (p rest : Bytes)
    → Lacks lf p
    → length p < max_token
    → scan_lines (p ++ lf ∷ rest) ≡ (drop_cr p ∷ (scan_lines rest).0, (scan_lines rest).1)
unfolding scan_lines
scan_lines-line p rest h short =
    ap scan_parts (split-part lf p rest h)
    ∙ scan_parts-more p (split lf rest) (split-cons lf rest) short

line_of_file-Lacks : {f : FileInfo} (h : IsListable f) → Lacks lf (line_of_file h)
line_of_file-Lacks h =
    join-Lacks (mode_word h ∷ later_words h) (mode_word-IsWord h, later_words-IsWords h)

-- The bytes of some texts, one after another.
abbrev pub all_bytes : List Bytes → Bytes
all_bytes [] = []
all_bytes (l ∷ ls) = l ++ all_bytes ls

-- The lines and the entries that belong to files.
abbrev lines_of : (fs : List FileInfo) → All IsListable fs → List Bytes
lines_of [] hs = []
lines_of (f ∷ fs) (h, hs) = line_of_file h ∷ lines_of fs hs

abbrev pub entries_of : (fs : List FileInfo) → All IsListable fs → List Entry
entries_of [] hs = []
entries_of (f ∷ fs) (h, hs) = entry_of h ∷ entries_of fs hs

-- Its line, with CR and LF, fits the scanner's buffer.
abbrev pub FitsScanner : FileInfo → Type 0
FitsScanner f = length (list_entry f) ≤ max_token

scan_entry :
    {f : FileInfo} (h : IsListable f) (rest : Bytes)
    → FitsScanner f
    → scan_lines (list_entry f ++ rest)
      ≡ (line_of_file h ∷ (scan_lines rest).0, (scan_lines rest).1)
scan_entry {f} h rest fit =
    let line = line_of_file h in
    let e = list_entry-line h in
    let l = ap length e ∙ length-append line (cr ∷ lf ∷ []) in
    ap (λ t. scan_lines (t ++ rest)) e
    ∙ ap scan_lines
        (append_assoc line (cr ∷ lf ∷ []) rest ∙ sym (append_assoc line (cr ∷ []) (lf ∷ rest)))
    ∙ scan_lines-line (line ++ cr ∷ []) rest
        (All-append _ line (cr ∷ []) (line_of_file-Lacks h) (refl, tt))
        (omega (arith, length-append line (cr ∷ [])))
    ∙ ap (λ t. (t ∷ (scan_lines rest).0, (scan_lines rest).1)) (drop_cr-line line)

scan_nothing : scan_lines [] ≡ ([], true)
unfolding scan_lines split
scan_nothing = refl

scan_entries :
    (fs : List FileInfo) (hs : All IsListable fs)
    → All FitsScanner fs
    → scan_lines (all_bytes (map list_entry fs)) ≡ (lines_of fs hs, true)
scan_entries [] hs fits = scan_nothing
scan_entries (f ∷ fs) (h, hs) (fit, fits) =
    scan_entry h (all_bytes (map list_entry fs)) fit
    ∙ ap (λ r. (line_of_file h ∷ r.0, r.1)) (scan_entries fs hs fits)

parse_lines-lines :
    (fs : List FileInfo) (hs : All IsListable fs)
    → parse_lines [] (lines_of fs hs) ≡ entries_of fs hs
unfolding parse_lines
parse_lines-lines [] hs = refl
parse_lines-lines (f ∷ fs) (h, hs) =
    rw (parse_lines, parse_list_line-line h) (ap (λ t. entry_of h ∷ t) (parse_lines-lines fs hs))

read_listing-scanned :
    (s : Bytes) (ls : List Bytes)
    → scan_lines s ≡ (ls, true)
    → read_listing [] s ≡ some (parse_lines [] ls)
unfolding read_listing
read_listing-scanned s ls e = rw (read_listing, e) refl

listing-flat :
    {Ctx : Type 0} (e : Env Ctx) (path : Bytes) (c : Ctx) (fs : List FileInfo)
    → e.driver.list_dir path c ≡ ok fs
    → (listing e false path c).1 ≡ map list_entry fs
unfolding listing
listing-flat e path c fs l = rw l refl

-- A directory whose entries are files and directories with a mode that starts with their letter, a
-- time of three words, a name of words with one space between them, and a size below 2 ^ 63, where a
-- word is not empty and holds no white space, of ASCII or beyond, each entry with a line that fits the
-- scanner's buffer: what LIST sends for it, the client reads as the list of its entries, in order,
-- with their names, kinds and sizes.
pub read_listing-listing :
    {Ctx : Type 0} (e : Env Ctx) (path : Bytes) (c : Ctx) (fs : List FileInfo)
    (hs : All IsListable fs)
    → e.driver.list_dir path c ≡ ok fs
    → All FitsScanner fs
    → read_listing [] (all_bytes (listing e false path c).1) ≡ some (entries_of fs hs)
read_listing-listing e path c fs hs l fits =
    ap (λ ls. read_listing [] (all_bytes ls)) (listing-flat e path c fs l)
    ∙ read_listing-scanned (all_bytes (map list_entry fs)) (lines_of fs hs)
        (scan_entries fs hs fits)
    ∙ ap some (parse_lines-lines fs hs)
