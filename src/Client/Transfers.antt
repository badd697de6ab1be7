-- ===== src/Client/Transfers.antt =====
-- transfer.go, and the listings of directory.go and mlst.go. The limiter of a transfer changes when its
-- bytes pass, not which. Readers and writers of the caller are their bytes, and whether they fail.
use ftp.Base.{
  ℕ, Bool, ◌||◌, Option, none, some, List, [], ◌∷◌, Bytes, text, is_empty, drop, has_prefix,
  if◌then◌else◌, ℤ, trim_space, is_positive,
}
use ftp.Session.State.{Ip}
use ftp.Client.Listing.{Entry, read_listing, scan_lines}
use ftp.Client.Facts.{MlEntry, read_ml_listing, ml_stat}
use ftp.Client.Wire.{
  Wire, M, ◌>>=◌, pure, raise, send_command, require, invalid, copy_failed, ok, err,
}
use ftp.Client.Commands.{set_type, restart_at}
use ftp.Client.DataConn.{cmd_data_conn, finish_data_conn, shut}

-- The bytes of a reader, and whether it ends by an error.
pub record Source : Type 0 where
  pub content : Bytes
  pub fails : Bool

module _ {S : Type 0} (w : Wire S) (parse_v6 : Bytes → Option Ip) where
  -- The bytes of a data connection, and whether they end by an error.
  abbrev receive_all : ℕ → M S (Bytes × Bool)
  receive_all d c = let r = w.receive d c.peer in (record c { peer = r.0 }, ok (r.1, r.2))

  -- The path of a listing, if there is one.
  abbrev path_args : Bytes → List Bytes
  path_args path = if is_empty path then [] else path ∷ []

  -- The end of a listing: what the scanner made of it, or its error, after which the data connection
  -- is closed and nothing more is read.
  abbrev finish_listing : {A : Type 0} → ℕ → Option A → M S A
  finish_listing d none c = (shut w parse_v6 d c, err copy_failed)
  finish_listing d (some a) c = (finish_data_conn w parse_v6 d >>= λ _. pure a) c

  -- What was scanned; an error of the connection is the scanner's.
  abbrev scanned : {A : Type 0} → Bool → Option A → Option A
  scanned failed r = if failed then none else r

  -- `List`
  unfoldable pub list : Bytes → M S (List Entry)
  unfolding cmd_data_conn finish_data_conn read_listing
  list path c =
      (cmd_data_conn w parse_v6 (text "LIST") (path_args path) >>= λ rd. receive_all rd.1 >>= λ b.
      finish_listing rd.1 (scanned b.1 (read_listing c.client.parsers b.0)))
        c

  -- The lines of NLST that are not blank, trimmed.
  abbrev names_of : List Bytes → List Bytes
  names_of [] = []
  names_of (l ∷ ls) =
      let rest = names_of ls in if is_empty (trim_space l) then rest else trim_space l ∷ rest

  abbrev read_names : Bytes → Option (List Bytes)
  read_names b = let r = scan_lines b in if r.1 then some (names_of r.0) else none

  -- `NameList`
  unfoldable pub name_list : Bytes → M S (List Bytes)
  unfolding cmd_data_conn finish_data_conn
  name_list path = cmd_data_conn w parse_v6 (text "NLST") (path_args path) >>= λ rd.
      receive_all rd.1 >>= λ b. finish_listing rd.1 (scanned b.1 (read_names b.0))

  -- `MLList`
  unfoldable pub ml_list :
      {Time : Type 0} → (Bytes → Option Time) → Bytes → M S (List (MlEntry Time))
  unfolding cmd_data_conn finish_data_conn read_ml_listing
  ml_list parse_time path = cmd_data_conn w parse_v6 (text "MLSD") (path_args path) >>= λ rd.
      receive_all rd.1 >>= λ b. finish_listing rd.1 (scanned b.1 (read_ml_listing parse_time b.0))

  -- `MLStat`, with the command
  unfoldable pub ml_stat_of : {Time : Type 0} → (Bytes → Option Time) → Bytes → M S (MlEntry Time)
  unfolding send_command ml_stat
  ml_stat_of parse_time path = send_command w (text "MLST") (path ∷ []) >>= λ r.
      require w 250 (text "MLST") r >>= λ _. elim (ml_stat parse_time r) [
        | none ↦ raise invalid
        | some x ↦ pure x
      ]

  -- The end of a transfer: the response is read in any case, and the error of the copy goes first.
  abbrev finish_copy : {A : Type 0} → ℕ → Bool → A → M S A
  finish_copy d failed a c =
      let r = finish_data_conn w parse_v6 d c in
      if failed
      then (r.0, err copy_failed)
      else (elim r.1 [ err x ↦ (r.0, err x) | ok _ ↦ (r.0, ok a) ])

  -- The bytes of a source, sent over a data connection; whether that failed.
  abbrev send_all : ℕ → Source → M S Bool
  send_all d src c =
      let r = w.send d src.content c.peer in (record c { peer = r.0 }, ok (r.1 || src.fails))

  abbrev upload : Bytes → List Bytes → Source → M S (Unit {0})
  upload command args src = cmd_data_conn w parse_v6 command args >>= λ rd.
      send_all rd.1 src >>= λ f. finish_copy rd.1 f tt

  abbrev download : Bytes → Bool → M S Bytes
  download path sink_fails = cmd_data_conn w parse_v6 (text "RETR") (path ∷ []) >>= λ rd.
      receive_all rd.1 >>= λ b. finish_copy rd.1 (b.1 || sink_fails) b.0

  -- `Store` and `StoreFrom`
  unfoldable pub store : Bytes → Source → M S (Unit {0})
  unfolding set_type cmd_data_conn finish_data_conn
  store path src = set_type w (text "I") >>= λ _. upload (text "STOR") (path ∷ []) src

  -- `Append`
  unfoldable pub append : Bytes → Source → M S (Unit {0})
  unfolding set_type cmd_data_conn finish_data_conn
  append path src = set_type w (text "I") >>= λ _. upload (text "APPE") (path ∷ []) src

  -- `StoreAt`: a resumed upload appends.
  unfoldable pub store_at : Bytes → Source → ℤ → M S (Unit {0})
  unfolding set_type cmd_data_conn finish_data_conn
  store_at path src offset = set_type w (text "I") >>= λ _.
      upload (if is_positive offset then text "APPE" else text "STOR") (path ∷ []) src

  -- The name in the response to STOU.
  abbrev unique_name : Bytes → Bytes
  unique_name m = if has_prefix m (text "FILE: ") then drop 6 m else m

  -- `StoreUnique`
  unfoldable pub store_unique : Source → M S Bytes
  unfolding set_type cmd_data_conn finish_data_conn
  store_unique src = set_type w (text "I") >>= λ _.
      cmd_data_conn w parse_v6 (text "STOU") [] >>= λ rd.
      send_all rd.1 src >>= λ f. finish_copy rd.1 f (unique_name rd.0.message)

  -- `Retrieve` and `RetrieveTo`: the bytes that were copied, if all went well.
  unfoldable pub retrieve : Bytes → Bool → M S Bytes
  unfolding set_type cmd_data_conn finish_data_conn
  retrieve path sink_fails = set_type w (text "I") >>= λ _. download path sink_fails

  -- `RetrieveFrom`
  unfoldable pub retrieve_from : Bytes → Bool → ℤ → M S Bytes
  unfolding set_type restart_at cmd_data_conn finish_data_conn
  retrieve_from path sink_fails offset = set_type w (text "I") >>= λ _.
      (if is_positive offset then restart_at w offset else pure tt) >>= λ _.
      download path sink_fails
