-- ===== src/Session/Tests/Runs.antt =====
-- Whole sessions of server/session*.go on the small driver.
use ftp.Base.{
  split, parse_int, join, ℕ, false, List, [], ◌∷◌, ◌≡◌, refl, text, ◌+◌, trim_right, bytes_eq, cut,
  to_upper,
}
use ftp.Session.State.{ip_equal, Session, done, Outcome, new_session, finals}
use ftp.Session.Contract.{Inv, owed}
use ftp.Session.Run.{session_answers, commands}
use ftp.Session.Run.Safety.{session_survives}
use ftp.Session.Run.Bounce.{no_bounce, IsTarget}
use ftp.Session.Info.{handle_user, handle_pass}
use ftp.Session.Address.{set_active, handle_port, port_parts, handle_pasv, listen_passive}
use ftp.Session.Transfer.{handle_retr, validate_active_ip}
use ftp.Session.Worker.{act, put_worker}
use ftp.Session.Dispatch.{handle_command, parse_line, guarded, dispatch, run_handler, find_handler}
use ftp.Session.Worker.{line, work, Event, run}
use ftp.Session.Tests.{env, net, entered, entered-Inv, pwd_pass, pwd_abor, pwd_site}

-- A login, a passive port, a download, its goroutine, and a refused command.
abbrev visit : List (Event ℕ)
visit =
    line env (text "USER u")
    ∷ line env (text "PASS p")
    ∷ line env (text "PASV")
    ∷ line env (text "RETR f")
    ∷ line env (text "DELE f")
    ∷ work 0 false
    ∷ work 0 false
    ∷ work 0 false
    ∷ line env (text "")
    ∷ []

abbrev state_of : Outcome (Session ℕ) → Session ℕ
state_of (done s) = s
state_of _ = new_session false

after_visit : run visit (new_session false) ≡ done (state_of (run visit (new_session false)))
unfolding run handle_command guarded dispatch run_handler find_handler text trim_right new_session
    bytes_eq parse_line cut to_upper handle_user handle_pass handle_pasv listen_passive handle_retr
    act put_worker
after_visit = refl

session_answers_example :
    finals (state_of (run visit (new_session false))).out
      + owed (state_of (run visit (new_session false))).workers
    ≡ commands visit
session_answers_example = session_answers false visit _ after_visit

session_survives_example :
    (t : Session ℕ) × Inv t × (run (line env (text "PWD") ∷ work 0 false ∷ []) entered ≡ done t)
session_survives_example =
    session_survives (line env (text "PWD") ∷ work 0 false ∷ []) entered entered-Inv
      ((pwd_pass, pwd_abor, pwd_site), (tt, tt))

-- PORT names the peer's own host.
abbrev active : List (Event ℕ)
active = line env (text "PASS p") ∷ line env (text "PORT 1,2,3,4,5,6") ∷ []

after_active : run active (new_session false) ≡ done (state_of (run active (new_session false)))
unfolding run handle_command guarded dispatch run_handler find_handler text trim_right new_session
    bytes_eq parse_line cut to_upper handle_pass handle_port port_parts split parse_int join
    set_active validate_active_ip ip_equal
after_active = refl

no_bounce_example :
    IsTarget
      (text "h")
      net.parse_ip
      net.ip_string
      (state_of (run active (new_session false))).active_ip
no_bounce_example =
    no_bounce (text "h") net.parse_ip net.ip_string false active _
      ((refl, refl, refl), ((refl, refl, refl), tt)) after_active

active_target : (state_of (run active (new_session false))).active_ip ≡ text "h"
unfolding run handle_command guarded dispatch run_handler find_handler text trim_right new_session
    bytes_eq parse_line cut to_upper handle_pass handle_port port_parts split parse_int join
    set_active validate_active_ip ip_equal
active_target = refl
