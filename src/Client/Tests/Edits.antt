-- ===== src/Client/Tests/Edits.antt =====
-- A client's edits (directory.go) on a session (server/session_file.go), at concrete inputs.
use ftp.Telnet.{telnet_iac}
use ftp.Base.{
  Bytes, arith, length, ◌≤◌, ◌≡◌, contains_byte, contains_byte-Lacks, is_eol, ℕ, true, false, none,
  some, List, [], ◌∷◌, refl, text, none_of,
}
use ftp.Session.State.{Env, permission}
use ftp.Session.Tests.{config, driver, env}
use ftp.Client.Tests.{visitor}
use ftp.Client.Wire.{Wire, Conn, Client}
use ftp.Client.Served.{Peer, live, served_by}
use ftp.Client.Served.Sending.{IsArg}
use ftp.Client.Served.Edits.{
  Edit, deletion, removal, renaming, apply, IsReportable, none_of-IsText, Stands,
}
use ftp.Client.Served.Whole.{perform_all, apply_all, ReportsAll, perform_all-apply_all}

-- A driver that counts its changes; it removes no directory.
abbrev counting : Env ℕ
counting = record env {
  config = record config { disabled_commands = λ _. false };
  driver = record driver { remove_dir = λ _ c. (c, some permission) };
}

-- A connection with no data connections.
abbrev quiet : Wire (Peer ℕ)
quiet = record {
  respond = λ _ _. none;
  close_data = λ _ _. none;
  dial = λ _ s. (s, none);
  listen = λ s. (s, none);
  receive = λ _ s. (s, [], true);
  send = λ _ _ s. (s, true);
}

abbrev client : Client
client = record {
  host = text "h";
  active_mode = false;
  disable_epsv = false;
  parsers = [];
  current_type = [];
  features = none;
  active_data_conn = none;
}

abbrev connected : Conn (Peer ℕ)
connected = record { client = client; input = []; peer = live visitor }

connected-Stands : Stands 0 connected
connected-Stands = record {
  drained = refl;
  listening = refl;
  logged_in = refl;
  opened = refl;
  idle = refl;
  unlocked = refl;
}

abbrev edits : List Edit
edits = deletion (text "a") ∷ renaming (text "b") (text "c d") ∷ removal (text "e") ∷ []

counting-IsReportable : (x : Edit) (ctx : ℕ) → IsReportable (apply counting.driver x ctx).1
unfolding text none_of
counting-IsReportable (deletion p) ctx = tt
counting-IsReportable (removal p) ctx = none_of-IsText (text "Permission denied.") refl
counting-IsReportable (renaming from to) ctx = tt

path_of :
    (path : Bytes)
    → none_of is_eol path ≡ true
    → contains_byte telnet_iac path ≡ false
    → length path ≤ 4089
    → IsArg path
path_of path t f n = record {
  is_text = none_of-IsText path t;
  filtered = contains_byte-Lacks telnet_iac path f;
  fits = n;
}

perform_all-apply_all_example :
    let r = apply_all counting.driver edits 0 in
    let p = perform_all (served_by counting quiet) edits connected in
    Stands r.0 p.0 × ReportsAll r.1 p.1
unfolding text none_of contains_byte
perform_all-apply_all_example =
    perform_all-apply_all counting quiet edits 0 connected
      (
        path_of (text "a") refl refl (omega arith),
        (
          (
            path_of (text "b") refl refl (omega arith),
            path_of (text "c d") refl refl (omega arith),
            refl,
          ),
          (path_of (text "e") refl refl (omega arith), tt),
        ),
      )
      counting-IsReportable (λ _. refl) connected-Stands
