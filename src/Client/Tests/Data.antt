-- ===== src/Client/Tests/Data.antt =====
-- Data connections between the client (data.go) and a session (server/session_transfer.go), at concrete
-- inputs.
use ftp.Base.{ℕ, none, some, [], ◌++◌, ◌≡◌, refl, arith, Bytes, text, show_nat, bytes_eq}
use ftp.Session.State.{Env, Net, Session, Out, done, write, reply_line, v4, ip_equal}
use ftp.Session.Text.{print_out}
use ftp.Session.Address.{handle_pasv, handle_epsv, handle_port, listen_passive, resolve_host}
use ftp.Session.Transfer.{validate_active_ip}
use ftp.Session.Tests.{net, env}
use ftp.Client.Tests.{visitor}
use ftp.Client.Reply.{Response, response_string, read_response, to_lines, got}
use ftp.Client.Data.{parse_pasv, parse_epsv, join_host_port, dotted, format_port}
use ftp.Client.Data.Announced.{handle_pasv-parse_pasv, handle_epsv-parse_epsv}
use ftp.Client.Data.Active.{handle_port-format_port}

-- A network that prints and reads one address as 10.0.0.2.
abbrev home : Net
home = record net { ip_string = λ _. dotted 10 0 0 2; parse_ip = λ _. some (v4 1) }

abbrev home_env : Env ℕ
home_env = record env { net = home }

handle_pasv-parse_pasv_example :
    (t : Session ℕ) × (o : Out) × (r : Response) × (handle_pasv home_env visitor ≡ done (write o t))
    × (t.pasv_list ≡ some 7)
    × (read_response (to_lines (print_out o ++ [])) ≡ got r (to_lines []))
    × (parse_pasv (response_string r) ≡ some (join_host_port (dotted 10 0 0 2) (show_nat 7)))
unfolding listen_passive resolve_host text bytes_eq
handle_pasv-parse_pasv_example =
    handle_pasv-parse_pasv home_env visitor 0 7 10 0 0 2 (v4 1) [] refl refl refl refl refl refl
      refl (omega arith) (omega arith) (omega arith) (omega arith) (omega arith)

handle_epsv-parse_epsv_example :
    (t : Session ℕ) × (o : Out) × (r : Response) × (handle_epsv home_env visitor ≡ done (write o t))
    × (t.pasv_list ≡ some 7)
    × (read_response (to_lines (print_out o ++ [])) ≡ got r (to_lines []))
    × (parse_epsv (response_string r) ≡ some (show_nat 7))
unfolding listen_passive
handle_epsv-parse_epsv_example =
    handle_epsv-parse_epsv home_env visitor 0 7 [] refl refl refl refl (omega arith)

handle_port-format_port_example :
    (arg : Bytes) × (format_port (λ _. none) (join_host_port (dotted 10 0 0 2) (show_nat 5000))
      ≡ some arg)
    × (handle_port home_env arg visitor
        ≡ done (
            write
              (reply_line 200 (text "PORT" ++ text " command successful."))
              (record visitor { active_ip = dotted 10 0 0 2; active_port = 5000 })))
unfolding validate_active_ip ip_equal
handle_port-format_port_example =
    handle_port-format_port home_env visitor (λ _. none) 10 0 0 2 5000 (v4 1) (omega arith)
      (omega arith) (omega arith) (omega arith) (omega arith) refl refl refl refl
