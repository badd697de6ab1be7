-- ===== src/Client/Tests.antt =====
-- Replies of the server (server/session.go) as the client reads them (control.go).
pub mod Data
pub mod Listings
pub mod Edits
pub mod Trees
use ftp.Base.{
  ℕ, true, false, some, none, text, List, [], ◌∷◌, ◌++◌, ◌≡◌, refl, arith, Bytes, lf, space, pos,
  map, join,
}
use ftp.Session.State.{Session, image, clear, Out, reply_line, cont_line, raw_line}
use ftp.Session.Text.{print_out}
use ftp.Client.Reply.{to_lines, got, read_response, message_parts}
use ftp.Client.Printed.{
  line_of, line_text, print_all, read_response-reply_line, read_response-print_all,
}

-- A session that is logged in, with nothing else done.
abbrev pub visitor : Session ℕ
visitor = record {
  is_logged_in = true;
  user = [];
  rename_from = [];
  fs = some 0;
  restart_offset = pos 0;
  host = [];
  selected_hash = text "SHA-256";
  transfer_type = image;
  busy = false;
  transfer_ctx = none;
  contexts = 0;
  cancelled = [];
  workers = [];
  data_conn = none;
  pasv_list = none;
  active_ip = [];
  active_port = 0;
  prot = clear;
  last_public_host = [];
  resolved_ip = none;
  sent = [];
  upgraded = false;
  mu = false;
  out = [];
}

-- "OK" and "No"
abbrev ok_text : Bytes
ok_text = 79 ∷ 75 ∷ []

abbrev no_text : Bytes
no_text = 78 ∷ 111 ∷ []

abbrev features : List Out
features = raw_line ok_text ∷ cont_line 211 no_text ∷ []

read_response-print_all_example :
    read_response (
      to_lines (
        print_out (cont_line 211 ok_text)
        ++ (print_all features ++ (print_out (reply_line 211 no_text) ++ no_text))))
    ≡ got
        (record {
          code = pos 211;
          message = join (lf ∷ []) (
              message_parts (
                line_of 211 b'-' ok_text
                ∷ (map line_text features ++ line_of 211 space no_text ∷ [])));
          lines =
              line_of 211 b'-' ok_text ∷ (map line_text features ++ line_of 211 space no_text ∷ []);
        })
        (to_lines no_text)
read_response-print_all_example =
    read_response-print_all 211 (omega arith) (omega arith) ok_text no_text features no_text
      (refl, (refl, tt)) ((refl, (refl, tt)), ((refl, (refl, (refl, tt))), tt)) (refl, (refl, tt))
