-- ===== src/Client/Tests/Listings.antt =====
-- Listings of the server (server/session_file.go, server/session_info.go), read by the client
-- (directory.go, mlst.go), at concrete inputs.
use ftp.Base.{
  ℕ, true, false, some, [], ◌∷◌, ◌++◌, ◌≡◌, ◌≢◌, refl, arith, Bytes, text, show_nat, is_eol, IsWord,
  join, none_of, none_of-All, may_space, plain-Spaceless, end_width,
}
use ftp.Session.State.{Env, FileInfo, Out, done, write, ok}
use ftp.Session.Text.{print_out}
use ftp.Session.File.{listing, list_entry}
use ftp.Session.Info.{handle_mlst}
use ftp.Session.Tests.{driver, env}
use ftp.Client.Tests.{visitor}
use ftp.Client.Reply.{Response, read_response, to_lines, got}
use ftp.Client.Listing.{read_listing}
use ftp.Client.Listing.Listed.{IsListable}
use ftp.Client.Listing.Whole.{all_bytes, entries_of, read_listing-listing}
use ftp.Client.Facts.{ml_stat}
use ftp.Client.Facts.Entries.{seen, AllDigits}
use ftp.Client.Facts.Status.{handle_mlst-ml_stat}

-- A file and a directory.
abbrev a_text : FileInfo
a_text = record {
  name = text "a b";
  is_dir = false;
  size = 12;
  mod_time = text "20240131120000";
  list_time = text "Jan 31 12:00";
  mode = text "-rw-r--r--";
}

abbrev sub_dir : FileInfo
sub_dir = record {
  name = text "sub";
  is_dir = true;
  size = 0;
  mod_time = text "20240131120000";
  list_time = text "Jan 31 12:01";
  mode = text "drwxr-xr-x";
}

abbrev listed : Env ℕ
listed = record env {
  driver = record driver {
    list_dir = λ _ _. ok (a_text ∷ sub_dir ∷ []);
    get_file_info = λ _ _. ok a_text;
  };
}

word : (w : Bytes) → w ≢ [] → none_of may_space w ≡ true → IsWord w
word w n h = (n, plain-Spaceless w (none_of-All may_space w h))

a_text-IsListable : IsListable a_text
unfolding text none_of join
a_text-IsListable = record {
  perms = text "rw-r--r--";
  month = text "Jan";
  day = text "31";
  clock = text "12:00";
  first = text "a";
  more = text "b" ∷ [];
  mode_eq = refl;
  time_eq = refl;
  name_eq = refl;
  perms_spaceless =
      plain-Spaceless (text "rw-r--r--") (none_of-All may_space (text "rw-r--r--") refl);
  month_word = word (text "Jan") (λ h. ground arith) refl;
  day_word = word (text "31") (λ h. ground arith) refl;
  clock_word = word (text "12:00") (λ h. ground arith) refl;
  first_word = word (text "a") (λ h. ground arith) refl;
  more_words = (word (text "b") (λ h. ground arith) refl, tt);
  fits = omega arith;
}

sub_dir-IsListable : IsListable sub_dir
unfolding text none_of join
sub_dir-IsListable = record {
  perms = text "rwxr-xr-x";
  month = text "Jan";
  day = text "31";
  clock = text "12:01";
  first = text "sub";
  more = [];
  mode_eq = refl;
  time_eq = refl;
  name_eq = refl;
  perms_spaceless =
      plain-Spaceless (text "rwxr-xr-x") (none_of-All may_space (text "rwxr-xr-x") refl);
  month_word = word (text "Jan") (λ h. ground arith) refl;
  day_word = word (text "31") (λ h. ground arith) refl;
  clock_word = word (text "12:01") (λ h. ground arith) refl;
  first_word = word (text "sub") (λ h. ground arith) refl;
  more_words = tt;
  fits = omega arith;
}

read_listing-listing_example :
    read_listing [] (all_bytes (listing listed false (text "/") 0).1)
    ≡ some (entries_of (a_text ∷ sub_dir ∷ []) (a_text-IsListable, (sub_dir-IsListable, tt)))
unfolding list_entry text show_nat
read_listing-listing_example =
    read_listing-listing listed (text "/") 0 (a_text ∷ sub_dir ∷ [])
      (a_text-IsListable, (sub_dir-IsListable, tt)) refl (omega arith, (omega arith, tt))

a_text-AllDigits : AllDigits a_text.mod_time
unfolding text none_of
a_text-AllDigits = ground arith

handle_mlst-ml_stat_example :
    (a b c : Out) × (r : Response) × (handle_mlst listed (text "/a b") visitor
      ≡ done (write c (write b (write a visitor))))
    × (read_response (to_lines (print_out a ++ (print_out b ++ (print_out c ++ []))))
        ≡ got r (to_lines []))
    × (ml_stat (λ t. some t) r ≡ some (seen a_text a_text-AllDigits (λ t. some t)))
unfolding text none_of end_width
handle_mlst-ml_stat_example =
    handle_mlst-ml_stat a_text a_text-AllDigits listed (λ t. some t) visitor (text "/a b") 0 [] refl
      refl refl refl (omega arith) (none_of-All is_eol (text "a b") refl) (λ h. ground arith) refl
