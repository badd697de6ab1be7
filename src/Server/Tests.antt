-- ===== src/Server/Tests.antt =====
-- Two connections from one address, and a data connection (server/server.go).
use ftp.Base.{◌+◌, ◌-◌, ◌≤◌, ◌<◌, bytes_eq, false, [], ◌∷◌, ◌≡◌, refl, arith, length}
use ftp.Server.{
  Server, Conn, new_server, connect, admitted, close_data, open_data, Reaches, started, connected,
}
use ftp.Server.Limits.{from_ip, sessions_within, admitted_within, double_close}

abbrev first : Conn
first = record { id = 1; ip = 104 ∷ [] }

abbrev second : Conn
second = record { id = 2; ip = 104 ∷ [] }

abbrev one : Server
one = (connect first (new_server 2 2)).0

first_admitted : (connect first (new_server 2 2)).1 ≡ admitted
unfolding connect bytes_eq
first_admitted = refl

one_reached : Reaches 2 2 one (first ∷ []) []
one_reached = connected (new_server 2 2) [] [] first started first_admitted

second_admitted : (connect second one).1 ≡ admitted
unfolding connect bytes_eq
second_admitted = refl

sessions_within_example : (one.active_conns ≡ length (first ∷ [])) × (length (first ∷ []) ≤ 2)
sessions_within_example = sessions_within 2 2 one (first ∷ []) [] one_reached (omega arith)

admitted_within_example : from_ip second.ip (second ∷ first ∷ []) + from_ip second.ip [] ≤ 2
admitted_within_example =
    admitted_within 2 2 one (first ∷ []) [] second one_reached (omega arith) second_admitted

one_running : one.in_shutdown ≡ false
unfolding connect bytes_eq
one_running = refl

one_limited : 0 < one.max_connections_per_ip
unfolding connect bytes_eq
one_limited = omega arith

double_close_example :
    (close_data second (close_data second (open_data second one))).conns_by_ip second.ip
    ≡ one.conns_by_ip second.ip - 1
double_close_example = double_close second one one_running one_limited
