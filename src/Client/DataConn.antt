-- ===== src/Client/DataConn.antt =====
-- data.go: how the client opens a data connection, runs a command over it, and ends it.
use ftp.Base.{
  ℕ, Bool, true, false, not, ◌&&◌, ◌||◌, Option, none, some, List, [], ◌∷◌, ◌++◌, Bytes, text,
  is_empty, if◌then◌else◌, leb, ltb, pos, negsuc, int_eq,
}
use ftp.Session.State.{Ip, v4, v6, is_v4}
use ftp.Client.Reply.{Response, response_string, is_2xx}
use ftp.Client.Data.{
  parse_pasv, parse_epsv, format_port, format_eprt, resolve_data_addr, join_host_port,
  split_host_port, parse_ip,
}
use ftp.Client.Wire.{
  Client, Wire, M, ◌>>=◌, pure, raise, modify, next_response, send_command, invalid, unreachable,
  unsent, protocol, Conn, ok, err,
}

-- Whether the code of a response lies in a range.
abbrev pub code_within : ℕ → ℕ → Response → Bool
code_within low high r = elim r.code [ pos n ↦ leb low n && ltb n high | negsuc _ ↦ false ]

-- `Is3xx`
abbrev pub is_3xx : Response → Bool
is_3xx = code_within 300 400

abbrev code_below : ℕ → Response → Bool
code_below n r = elim r.code [ pos m ↦ ltb m n | negsuc _ ↦ true ]

-- The test of `cmdDataConnFrom` that ends it with a ProtocolError.
unfoldable pub is_refused : Response → Bool
unfolding is_2xx
is_refused r =
    ((not (is_2xx r) && (not (is_3xx r) && code_below 100 r)) || not (code_below 200 r))
    && (code_below 100 r || not (code_below 400 r))

module _ {S : Type 0} (w : Wire S) (parse_v6 : Bytes → Option Ip) where
  -- The host and port that EPSV gives, if it is tried and answers well; 502 turns it off.
  unfoldable pub try_epsv : M S Bytes
  unfolding send_command
  try_epsv c =
      let r = send_command w (text "EPSV") [] c in
      let host = c.client.host in
      if c.client.disable_epsv then (c, ok []) else (elim r.1 [
        | err _ ↦ (r.0, ok [])
        | ok resp ↦
            if int_eq resp.code (pos 502)
            then (modify (λ k. record k { disable_epsv = true }) >>= λ _. pure []) r.0
            else if is_2xx resp
            then (elim (parse_epsv (response_string resp)) [
              | none ↦ (r.0, ok [])
              | some port ↦ (r.0, ok (join_host_port host port))
            ])
            else (r.0, ok [])
      ])

  -- The address that PASV gives.
  unfoldable pub ask_pasv : M S Bytes
  unfolding send_command
  ask_pasv c =
      (send_command w (text "PASV") [] >>= λ resp.
      if not (is_2xx resp)
      then raise (protocol (text "PASV") resp)
      else (elim (parse_pasv (response_string resp)) [
        | none ↦ raise invalid
        | some addr ↦ pure (resolve_data_addr addr c.client.host)
      ]))
        c

  abbrev dial_to : Bytes → M S ℕ
  dial_to addr c =
      let r = w.dial addr c.peer in
      elim r.1 [
        | none ↦ (record c { peer = r.0 }, err unreachable)
        | some d ↦ (record c { peer = r.0 }, ok d)
      ]

  -- `openPassiveDataConn`
  unfoldable pub open_passive : M S ℕ
  unfolding try_epsv ask_pasv
  open_passive =
      try_epsv >>= λ addr. (if is_empty addr then ask_pasv else pure addr) >>= λ a. dial_to a

  -- The command that announces a listener, by the family of its address.
  abbrev announce : Bytes → Ip → M S Response
  announce addr (v4 n) = elim (format_port parse_v6 addr) [
    | none ↦ raise invalid
    | some arg ↦ send_command w (text "PORT") (arg ∷ [])
  ]
  announce addr (v6 n) = elim (format_eprt parse_v6 addr) [
    | none ↦ raise invalid
    | some arg ↦ send_command w (text "EPRT") (arg ∷ [])
  ]

  abbrev announced : Ip → Response → M S (Unit {0})
  announced ip r =
      if is_2xx r
      then pure tt
      else raise (protocol (if is_v4 ip then text "PORT" else text "EPRT") r)

  abbrev host_ip : Bytes → Option Ip
  host_ip addr = elim (split_host_port addr) [ none ↦ none | some hp ↦ parse_ip parse_v6 hp.0 ]

  abbrev announce_listener : ℕ → Bytes → Option Ip → M S ℕ
  announce_listener d addr none = raise invalid
  announce_listener d addr (some ip) =
      announce addr ip >>= λ resp. announced ip resp >>= λ _. pure d

  -- `openActiveDataConn`: the connection is accepted when it is first used.
  unfoldable pub open_active : M S ℕ
  unfolding send_command
  open_active c =
      let r = w.listen c.peer in
      elim r.1 [
        | none ↦ (record c { peer = r.0 }, err unreachable)
        | some (d, addr) ↦ announce_listener d addr (host_ip addr) (record c { peer = r.0 })
      ]

  -- `openDataConn`
  unfoldable pub open_data_conn : M S ℕ
  unfolding open_passive open_active
  open_data_conn c = if c.client.active_mode then open_active c else open_passive c

  abbrev track : Option ℕ → Client → Client
  track d k = record k { active_data_conn = d }

  -- Closing a data connection, without reading the response to that.
  abbrev pub shut : ℕ → Conn S → Conn S
  shut d c = elim (w.close_data d c.peer) [
    | none ↦ c
    | some (peer, lines) ↦ record c { peer = peer; input = c.input ++ lines }
  ]

  abbrev give_up : ℕ → Conn S → Conn S
  give_up d c = let shut_c = shut d c in record shut_c { client = track none shut_c.client }

  -- `cmdDataConnFrom`: the response to the command, and the data connection.
  unfoldable pub cmd_data_conn : Bytes → List Bytes → M S (Response × ℕ)
  unfolding open_data_conn send_command
  cmd_data_conn command args = open_data_conn >>= λ d. modify (track (some d)) >>= λ _. λ c.
      let r = send_command w command args c in
      elim r.1 [
        | err x ↦ (give_up d r.0, err x)
        | ok resp ↦
            if is_refused resp
            then (give_up d r.0, err (protocol command resp))
            else (r.0, ok (resp, d))
      ]

  -- `finishDataConn`: the connection is forgotten once the response was read.
  unfoldable pub finish_data_conn : ℕ → M S (Unit {0})
  unfolding next_response
  finish_data_conn d c = elim (w.close_data d c.peer) [
    | none ↦ (c, err unsent)
    | some (peer, lines) ↦
        (next_response >>= λ r. modify (track none) >>= λ _.
        if is_2xx r then pure tt else raise (protocol (text "DATA_TRANSFER") r))
          (record c { peer = peer; input = c.input ++ lines })
  ]
