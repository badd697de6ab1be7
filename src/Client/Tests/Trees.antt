-- ===== src/Client/Tests/Trees.antt =====
-- A directory tree that the client removes (directory.go), at concrete inputs.
use ftp.Base.{
  end_width, space_width, ℕ, suc, has_prefix, true, false, Option, none, some, inr, List, [], ◌∷◌,
  ◌++◌, ◌≡◌, refl, ap, Bytes, text, bytes_eq, if◌then◌else◌, pos, cr, lf, ◌∙◌, trim_right,
  parse_int, int_eq, join, contains_byte, split, trim_space, cut,
}
use ftp.Session.State.{Ip}
use ftp.Driver.Path.{join_path, clean}
use ftp.Client.Reply.{command_line, read_response, is_2xx}
use ftp.Client.Listing.{parse_list_line, Entry, file, dir}
use ftp.Client.Wire.{Result, Wire, Conn, Client, ok}
use ftp.Client.Data.{parse_epsv, join_host_port}
use ftp.Client.DataConn.{is_refused}
use ftp.Client.Transfers.{list}
use ftp.Client.Tree.{
  local, Local, outside, download_dir, relative_to, remove_dir_recursive, path_dir, path_base,
  find_entry,
}
use ftp.Client.Upload.{upload_dir, symlink, failed, directory}
use ftp.Client.Tree.Download.{download_dir-outside}
use ftp.Client.Tree.Files.{
  Tree, leaf, branch, nothing, beside, removal_order, Lists, Served, Within,
}
use ftp.Client.Tree.Removal.{Deletes, remove_dir_recursive-removal_order}

abbrev end_of_line : Bytes
end_of_line = cr ∷ lf ∷ []

-- A server that remembers the last line it was sent. Its root holds a directory r, and that a file f.
abbrev shelf : Wire Bytes
shelf = record {
  respond = λ line b. some (
    line,
    (if bytes_eq line (command_line (text "EPSV") [])
          then text "229 (|||7|)" ++ end_of_line
          else text "250 OK" ++ end_of_line)
        ∷ [],
  );
  close_data = λ _ b. some (b, (text "226 OK" ++ end_of_line) ∷ []);
  dial = λ _ b. (b, some 7);
  listen = λ b. (b, none);
  receive = λ _ b. (
    b,
    (if bytes_eq b (command_line (text "LIST") (text "/" ∷ [])) then text "r" else text "f")
        ++ end_of_line,
    false,
  );
  send = λ _ _ b. (b, true);
}

-- An entry whose line is its name.
abbrev named : Bytes → Entry
named line = record {
  name = line;
  kind = if bytes_eq line (text "r") then dir else file;
  size = pos 0;
  target = [];
  raw = line;
}

abbrev reader : Client
reader = record {
  host = text "h";
  active_mode = false;
  disable_epsv = false;
  parsers = (λ line. some (named line)) ∷ [];
  current_type = [];
  features = none;
  active_data_conn = none;
}

abbrev after_line : Bytes → Conn Bytes
after_line b = record { client = reader; input = []; peer = b }

abbrev no_v6 : Bytes → Option Ip
no_v6 _ = none

list_root :
    (b : Bytes)
    → list shelf no_v6 (text "/") (after_line b)
      ≡ (after_line (command_line (text "LIST") (text "/" ∷ [])), ok (named (text "r") ∷ []))
unfolding list read_response trim_right bytes_eq command_line text parse_int int_eq is_2xx
    parse_epsv join join_host_port contains_byte is_refused split parse_list_line trim_space
    end_width space_width
list_root b = refl

list_dir :
    (b : Bytes)
    → list shelf no_v6 (text "/r") (after_line b)
      ≡ (after_line (command_line (text "LIST") (text "/r" ∷ [])), ok (named (text "f") ∷ []))
unfolding list read_response trim_right bytes_eq command_line text parse_int int_eq is_2xx
    parse_epsv join join_host_port contains_byte is_refused split parse_list_line trim_space
    end_width space_width
list_dir b = refl

-- A client that has read everything, whatever it was last asked.
abbrev Rested : Conn Bytes → Type 0
Rested c = (b : Bytes) × (c ≡ after_line b)

Lists-after_line :
    (p last : Bytes) (es : List Entry)
    → ((b : Bytes) → list shelf no_v6 p (after_line b) ≡ (after_line last, ok es))
    → Lists shelf no_v6 Rested p es
Lists-after_line p last es h c (b, g) =
    let same = ap (list shelf no_v6 p) g ∙ h b in ((last, ap (λ r. r.0) same), ap (λ r. r.1) same)

abbrev tree : Tree
tree = branch (named (text "r")) (beside (leaf (named (text "f"))) nothing)

tree-Served : Served shelf no_v6 Rested (text "/r") tree
unfolding Served bytes_eq text
tree-Served = (refl, Lists-after_line (text "/r") _ _ list_dir, (refl, refl, tt))

remove_dir_recursive-removal_order_example :
    (d b : Conn Bytes) × (r : Result (Unit {0})) × Rested d
    × Deletes shelf no_v6 Rested (removal_order (clean (text "/r/")) tree) d b r
    × (remove_dir_recursive shelf no_v6 2 (text "/r/") (after_line []) ≡ some (b, inr r))
unfolding clean Within bytes_eq text path_dir cut find_entry path_base
remove_dir_recursive-removal_order_example =
    remove_dir_recursive-removal_order shelf no_v6 Rested 2 (text "/r/") (named (text "r") ∷ [])
      tree (after_line []) refl refl (Lists-after_line (text "/") _ _ list_root) refl (tt, tt)
      tree-Served ([], refl)

-- A local file system that takes everything, and counts.
abbrev disk : Local ℕ
disk = record {
  mkdir_all = λ _ n. (suc n, none);
  create = λ _ n. (suc n, none);
  write = λ _ _ n. suc n;
}

download_dir-outside_example :
    download_dir shelf no_v6 disk 3 (text "/r/") (text "here") (after_line [], 0)
    ≡ some (
      ((list shelf no_v6 (text "/") (after_line [])).0, (disk.mkdir_all (text "here") 0).0),
      some outside,
    )
unfolding clean bytes_eq text path_dir cut find_entry path_base has_prefix
download_dir-outside_example =
    download_dir-outside shelf no_v6 disk 2 (text "/r/") (text "here") (named (text "r") ∷ [])
      (named (text "r")) (after_line []) 0 refl refl refl (ap (λ r. r.1) (list_root [])) refl refl

-- A name that a server lists for the directory "." leads out of the local one.
escapes : join_path (text "here/in") (text "./../evil") ≡ text "here/evil"
unfolding join_path clean text bytes_eq
escapes = refl

escaping_name :
    relative_to shelf no_v6 disk (text ".") (join_path (text ".") (text "../../evil"))
    ≡ some (text "./../evil")
unfolding join_path clean text bytes_eq has_prefix
escaping_name = refl

-- A link is passed over, and what follows an error is not looked at.
upload_stops :
    (b : Bytes)
    → upload_dir shelf no_v6
        (text "/r")
        ((text "l", symlink) ∷ (text "x", failed (text "gone")) ∷ (text "d", directory) ∷ [])
        (after_line b)
      ≡ (after_line b, some (local (text "gone")))
unfolding upload_dir
upload_stops b = refl
