-- ===== src/Server.antt =====
-- server/server.go: which connections the server tracks and admits, and what counts against its limits.
pub mod Limits
pub mod Tests
use ftp.Base.{
  ℕ, zero, suc, ◌+◌, ◌-◌, Bool, true, false, not, ◌&&◌, Option, none, some, List, [], ◌∷◌, ◌++◌,
  ◌≡◌, ◌≢◌, Bytes, bytes_eq, if◌then◌else◌, ltb, leb, ◌==◌,
}

-- The fields of `Server` about connections. A key that connsByIP does not hold counts as 0, and one
-- whose count falls to 0 or below is deleted.
pub record Server : Type 0 where
  pub max_connections : ℕ  -- 0 for no limit
  pub max_connections_per_ip : ℕ
  pub active_conns : ℕ
  pub conns_by_ip : Bytes → ℕ
  pub conns : List ℕ
  pub in_shutdown : Bool

-- A connection, with the host of its remote address.
pub record Conn : Type 0 where
  pub id : ℕ
  pub ip : Bytes

abbrev pub new_server : ℕ → ℕ → Server
new_server max per_ip = record {
  max_connections = max;
  max_connections_per_ip = per_ip;
  active_conns = 0;
  conns_by_ip = λ _. 0;
  conns = [];
  in_shutdown = false;
}

abbrev pub set_count : Bytes → ℕ → (Bytes → ℕ) → Bytes → ℕ
set_count ip n f k = if bytes_eq k ip then n else f k

abbrev pub remove_id : ℕ → List ℕ → List ℕ
remove_id i [] = []
remove_id i (j ∷ js) = let rest = remove_id i js in if i == j then rest else j ∷ rest

-- `trackConnection(conn, true)` and `trackConnection(conn, false)`
unfoldable pub track : Conn → Server → Server × Bool
track c s = if s.in_shutdown then (s, false) else (
  record s {
    conns = c.id ∷ remove_id c.id s.conns;
    conns_by_ip =
        if ltb 0 s.max_connections_per_ip
        then set_count c.ip (s.conns_by_ip c.ip + 1) s.conns_by_ip
        else s.conns_by_ip;
  },
  true,
)

unfoldable pub untrack : Conn → Server → Server
untrack c s = if s.in_shutdown then s else record s {
  conns = remove_id c.id s.conns;
  conns_by_ip =
      if ltb 0 s.max_connections_per_ip
      then set_count c.ip (s.conns_by_ip c.ip - 1) s.conns_by_ip
      else s.conns_by_ip;
}

-- What becomes of a connection: closed in a shutdown, one of the replies 421, or a session.
pub data Admission : Type 0 where
  closed too_many too_many_from_ip admitted : Admission

-- The checks of `handleSession`, on a connection that is tracked.
unfoldable pub admit : Conn → Server → Admission
admit c s =
    if ltb 0 s.max_connections && leb s.max_connections s.active_conns
    then too_many
    else if ltb 0 s.max_connections_per_ip && ltb s.max_connections_per_ip (s.conns_by_ip c.ip)
    then too_many_from_ip
    else admitted

-- `handleConnection` up to the start of a session: one that is refused is untracked.
unfoldable pub connect : Conn → Server → Server × Admission
unfolding track untrack admit
connect c s =
    let r = track c s in
    if not r.1 then (s, closed) else (elim (admit c r.0) [
      | admitted ↦ (record r.0 { active_conns = r.0.active_conns + 1 }, admitted)
      | closed ↦ (untrack c r.0, closed)
      | too_many ↦ (untrack c r.0, too_many)
      | too_many_from_ip ↦ (untrack c r.0, too_many_from_ip)
    ])

-- The deferred calls of `handleSession` and `handleConnection` once a session is over.
unfoldable pub disconnect : Conn → Server → Server
unfolding untrack
disconnect c s = untrack c (record s { active_conns = s.active_conns - 1 })

-- A data connection in `wrapDataConn`, and `trackingConn.Close`.
unfoldable pub open_data : Conn → Server → Server
unfolding track
open_data c s = (track c s).0

unfoldable pub close_data : Conn → Server → Server
unfolding untrack
close_data c s = untrack c s

-- The servers that are reached while each connection is closed once, with the control connections
-- that have a session and the data connections that are open. A connection is handled as one step.
pub data Reaches (max per_ip : ℕ) : Server → List Conn → List Conn → Type 0 where
  started : Reaches max per_ip (new_server max per_ip) [] []
  connected :
      (s : Server) (cs ds : List Conn) (c : Conn)
      → Reaches max per_ip s cs ds
      → (connect c s).1 ≡ admitted
      → Reaches max per_ip (connect c s).0 (c ∷ cs) ds
  refused :
      (s : Server) (cs ds : List Conn) (c : Conn)
      → Reaches max per_ip s cs ds
      → (connect c s).1 ≢ admitted
      → Reaches max per_ip (connect c s).0 cs ds
  disconnected :
      (s : Server) (before after ds : List Conn) (c : Conn)
      → Reaches max per_ip s (before ++ c ∷ after) ds
      → Reaches max per_ip (disconnect c s) (before ++ after) ds
  data_opened :
      (s : Server) (cs ds : List Conn) (c : Conn)
      → Reaches max per_ip s cs ds
      → Reaches max per_ip (open_data c s) cs (c ∷ ds)
  data_closed :
      (s : Server) (cs before after : List Conn) (c : Conn)
      → Reaches max per_ip s cs (before ++ c ∷ after)
      → Reaches max per_ip (close_data c s) cs (before ++ after)
