-- ===== src/Server/Limits.antt =====
-- The limits on connections of server/server.go.
use ftp.Base.{
  ℕ, suc, ◌+◌, ◌-◌, ◌≤◌, ◌<◌, false, List, [], ◌∷◌, ◌++◌, ◌≡◌, ◌≢◌, refl, arith, Bytes, bytes_eq,
  bytes_eq_iff, bytes_eq_refl, if◌then◌else◌, length,
}
use ftp.Server.{
  Server, Conn, admitted, connect, disconnect, open_data, close_data, Reaches, started, connected,
  refused, disconnected, data_opened, data_closed,
}

-- How many of the connections come from an address.
abbrev pub from_ip : Bytes → List Conn → ℕ
from_ip ip [] = 0
from_ip ip (c ∷ cs) = (if bytes_eq ip c.ip then 1 else 0) + from_ip ip cs

from_ip-middle :
    (ip : Bytes) (before after : List Conn) (c : Conn)
    → from_ip ip (before ++ c ∷ after)
      ≡ (if bytes_eq ip c.ip then 1 else 0) + from_ip ip (before ++ after)
from_ip-middle ip [] after c = refl
from_ip-middle ip (b ∷ before) after c = omega (arith, from_ip-middle ip before after c)

length-middle :
    (before after : List Conn) (c : Conn)
    → length (before ++ c ∷ after) ≡ suc (length (before ++ after))
length-middle [] after c = refl
length-middle (b ∷ before) after c = omega (arith, length-middle before after c)

record Inv (max per_ip : ℕ) (s : Server) (cs ds : List Conn) : Type 0 where
  same_max : s.max_connections ≡ max
  same_per_ip : s.max_connections_per_ip ≡ per_ip
  running : s.in_shutdown ≡ false
  active : s.active_conns ≡ length cs
  within : 0 < max → length cs ≤ max
  counted : 0 < per_ip → (ip : Bytes) → s.conns_by_ip ip ≡ from_ip ip cs + from_ip ip ds

module _ (max per_ip : ℕ) where
  connected-Inv :
      (s : Server) (cs ds : List Conn) (c : Conn)
      → Inv max per_ip s cs ds
      → (connect c s).1 ≡ admitted
      → Inv max per_ip (connect c s).0 (c ∷ cs) ds
  unfolding connect
  connected-Inv s cs ds c i h = record {
    same_max = ground arith;
    same_per_ip = ground arith;
    running = ground arith;
    active = ground arith;
    within = λ p. ground arith;
    counted = λ p ip. ground (arith, i.counted p ip, i.counted p c.ip, bytes_eq_iff ip c.ip);
  }

  refused-Inv :
      (s : Server) (cs ds : List Conn) (c : Conn)
      → Inv max per_ip s cs ds
      → (connect c s).1 ≢ admitted
      → Inv max per_ip (connect c s).0 cs ds
  unfolding connect
  refused-Inv s cs ds c i h = record {
    same_max = ground arith;
    same_per_ip = ground arith;
    running = ground arith;
    active = ground arith;
    within = i.within;
    counted = λ p ip.
        ground (arith, i.counted p ip, i.counted p c.ip, bytes_eq_iff ip c.ip, bytes_eq_refl c.ip);
  }

  disconnected-Inv :
      (s : Server) (before after ds : List Conn) (c : Conn)
      → Inv max per_ip s (before ++ c ∷ after) ds
      → Inv max per_ip (disconnect c s) (before ++ after) ds
  unfolding disconnect
  disconnected-Inv s before after ds c i = record {
    same_max = ground arith;
    same_per_ip = ground arith;
    running = ground arith;
    active = ground (arith, length-middle before after c);
    within = λ p. ground (arith, i.within p, length-middle before after c);
    counted = λ p ip. ground (
      arith,
      i.counted p ip,
      i.counted p c.ip,
      bytes_eq_iff ip c.ip,
      from_ip-middle ip before after c,
    );
  }

  data_opened-Inv :
      (s : Server) (cs ds : List Conn) (c : Conn)
      → Inv max per_ip s cs ds
      → Inv max per_ip (open_data c s) cs (c ∷ ds)
  unfolding open_data
  data_opened-Inv s cs ds c i = record {
    same_max = ground arith;
    same_per_ip = ground arith;
    running = ground arith;
    active = ground arith;
    within = i.within;
    counted = λ p ip. ground (arith, i.counted p ip, i.counted p c.ip, bytes_eq_iff ip c.ip);
  }

  data_closed-Inv :
      (s : Server) (cs before after : List Conn) (c : Conn)
      → Inv max per_ip s cs (before ++ c ∷ after)
      → Inv max per_ip (close_data c s) cs (before ++ after)
  unfolding close_data
  data_closed-Inv s cs before after c i = record {
    same_max = ground arith;
    same_per_ip = ground arith;
    running = ground arith;
    active = ground arith;
    within = i.within;
    counted = λ p ip. ground (
      arith,
      i.counted p ip,
      i.counted p c.ip,
      bytes_eq_iff ip c.ip,
      from_ip-middle ip before after c,
    );
  }

  Reaches-Inv :
      {s : Server} {cs ds : List Conn} → Reaches max per_ip s cs ds → Inv max per_ip s cs ds
  Reaches-Inv started = record {
    same_max = refl;
    same_per_ip = refl;
    running = refl;
    active = refl;
    within = λ p. omega arith;
    counted = λ p ip. refl;
  }
  Reaches-Inv (connected s cs ds c r h) = connected-Inv s cs ds c (Reaches-Inv r) h
  Reaches-Inv (refused s cs ds c r h) = refused-Inv s cs ds c (Reaches-Inv r) h
  Reaches-Inv (disconnected s before after ds c r) =
      disconnected-Inv s before after ds c (Reaches-Inv r)
  Reaches-Inv (data_opened s cs ds c r) = data_opened-Inv s cs ds c (Reaches-Inv r)
  Reaches-Inv (data_closed s cs before after c r) =
      data_closed-Inv s cs before after c (Reaches-Inv r)

  -- In every state that is reached while each connection is closed once and each is handled as one
  -- step, with no shutdown: no more sessions are live than the limit, if there is one, and
  -- activeConns is their number.
  pub sessions_within :
      (s : Server) (cs ds : List Conn)
      → Reaches max per_ip s cs ds
      → 0 < max
      → (s.active_conns ≡ length cs) × (length cs ≤ max)
  sessions_within s cs ds r p = ((Reaches-Inv r).active, (Reaches-Inv r).within p)

  -- In every state reached in that way, with a limit per address: a connection is admitted only if it,
  -- the sessions and the open data connections from its address are together no more than the limit.
  pub admitted_within :
      (s : Server) (cs ds : List Conn) (c : Conn)
      → Reaches max per_ip s cs ds
      → 0 < per_ip
      → (connect c s).1 ≡ admitted
      → from_ip c.ip (c ∷ cs) + from_ip c.ip ds ≤ per_ip
  unfolding connect
  admitted_within s cs ds c r p h =
      let i = Reaches-Inv r in ground (arith, i.counted p c.ip, bytes_eq_refl c.ip)

-- A data connection that is opened and then closed twice, as at the end of a transfer and again at
-- the end of its session, with a limit per address and no shutdown: the count of its address is one
-- less than before, or still 0.
pub double_close :
    (c : Conn) (s : Server)
    → s.in_shutdown ≡ false
    → 0 < s.max_connections_per_ip
    → (close_data c (close_data c (open_data c s))).conns_by_ip c.ip ≡ s.conns_by_ip c.ip - 1
unfolding open_data close_data
double_close c s r p = ground (arith, bytes_eq_refl c.ip)
