-- ===== src/Session/State.antt =====
-- server/session.go, server/driver.go: the state of a control connection, what it asks of its
-- surroundings, and how a reply is written.
use ftp.Base.{
  ◌⊎◌, inl, inr, ◌≡◌, refl, ℕ, ◌+◌, Bool, true, false, Option, none, some, List, [], ◌∷◌, Bytes, ℤ,
  pos, text, if◌then◌else◌, ◌++◌, ◌==◌, leb,
}

-- An error by what `replyError` asks of it: os.IsNotExist, os.IsPermission, os.IsExist, or none.
pub data FsError : Type 0 where
  not_exist permission exist : FsError
  other : Bytes → FsError

-- `err.Error()`
unfoldable pub error_text : FsError → Bytes
error_text not_exist = text "file does not exist"
error_text permission = text "permission denied"
error_text exist = text "file already exists"
error_text (other message) = message

pub data Res (A : Type 0) : Type 0 where
  ok : A → Res A
  fail : FsError → Res A

pub Res-cases : {A : Type 0} (r : Res A) → ((x : FsError) × (r ≡ fail x)) ⊎ ((a : A) × (r ≡ ok a))
Res-cases (fail x) = inl (x, refl)
Res-cases (ok a) = inr (a, refl)

-- `v6` holds an address that is not an IPv4 one in IPv6 form: `To4` finds those.
pub data Ip : Type 0 where
  v4 v6 : ℕ → Ip

unfoldable pub ip_equal : Ip → Ip → Bool
ip_equal (v4 a) (v4 b) = a == b
ip_equal (v6 a) (v6 b) = a == b
ip_equal _ _ = false

abbrev pub is_v4 : Ip → Bool
is_v4 (v4 _) = true
is_v4 (v6 _) = false

-- What the program reads of an os.FileInfo, its times and modes as they are printed.
pub record FileInfo : Type 0 where
  pub name : Bytes
  pub is_dir : Bool
  pub size : ℕ
  pub mod_time : Bytes  -- Format("20060102150405") in UTC
  pub list_time : Bytes  -- Format("Jan 02 15:04")
  pub mode : Bytes

-- The flags of OpenFile that the handlers pass.
pub record OpenFlags : Type 0 where
  pub writing : Bool
  pub create : Bool
  pub truncate : Bool
  pub append : Bool

-- An open file; `seek` is none for a file that is no io.Seeker.
pub record File : Type 0 where
  pub seek : Option (ℤ → Option FsError)

pub record Settings : Type 0 where
  pub public_host : Bytes
  pub pasv_min_port : ℤ
  pub pasv_max_port : ℤ
  pub umask : ℤ

-- The methods of the interface `ClientContext`. A call returns the context after it.
pub record ClientContext (Ctx : Type 0) : Type 0 where
  pub change_dir : Bytes → Ctx → Ctx × Option FsError
  pub get_wd : Ctx → Res Bytes
  pub make_dir : Bytes → Ctx → Ctx × Option FsError
  pub remove_dir : Bytes → Ctx → Ctx × Option FsError
  pub delete_file : Bytes → Ctx → Ctx × Option FsError
  pub rename : Bytes → Bytes → Ctx → Ctx × Option FsError
  pub list_dir : Bytes → Ctx → Res (List FileInfo)
  pub open_file : Bytes → OpenFlags → Ctx → Ctx × Res File
  pub get_file_info : Bytes → Ctx → Res FileInfo
  pub get_hash : Bytes → Bytes → Ctx → Res Bytes
  pub set_time : Bytes → Bytes → Ctx → Ctx × Option FsError
  pub chmod : Bytes → ℕ → Ctx → Ctx × Option FsError
  pub get_settings : Ctx → Option Settings
  pub depth : ℕ  -- a bound on how deep its directories nest
  pub message_file : Ctx → Option Bytes  -- the first 2048 bytes of ".message", if it opens

-- The fields of `Server` and of the connection that the handlers read.
pub record Config : Type 0 where
  pub tls : Bool  -- tlsConfig != nil
  pub disable_mlsd : Bool
  pub enable_dir_message : Bool
  pub disabled_commands : Bytes → Bool
  pub server_name : Bytes
  pub remote_addr : Bytes  -- the host of conn.RemoteAddr
  pub local_addr : Bytes  -- the host of conn.LocalAddr
  pub remote_ip : Bytes

-- The network and the clock, as one command meets them.
pub record Net : Type 0 where
  pub parse_ip : Bytes → Option Ip
  pub ip_string : Ip → Bytes
  pub lookup_ip : Bytes → Option (List Ip)
  pub next_port : ℤ  -- what atomic.AddInt32(&nextPassivePort, 1) returns
  pub listen : ℤ → Option ℕ  -- the port that a listener gets, asked for one; 0 asks for any
  pub accept : ℕ → Option ℕ  -- a connection on a listener's port
  pub dial : Bytes → ℕ → Option ℕ
  pub handshake : ℕ → Bool
  pub unix_nano : Bytes
  pub is_timestamp : Bytes → Bool  -- time.Parse("20060102150405", s) succeeds

pub record Env (Ctx : Type 0) : Type 0 where
  pub config : Config
  pub net : Net
  pub driver : ClientContext Ctx
  pub authenticate : Bytes → Bytes → Bytes → Option Ip → Res Ctx

pub data TransferType : Type 0 where
  ascii image : TransferType

pub data Prot : Type 0 where
  clear private : Prot

-- What is written to the control connection.
pub data Out : Type 0 where
  reply_line : ℕ → Bytes → Out  -- "%d %s\r\n"
  cont_line : ℕ → Bytes → Out  -- "%d-%s\r\n"
  raw_line : Bytes → Out  -- " %s\r\n"

-- The handlers of `commandHandlers`.
pub data Verb : Type 0 where
  cwd cdup pwd list nlst mkd rmd dele rnfr rnto : Verb
  retr stor appe stou : Verb
  type_cmd port pasv epsv eprt rest : Verb
  size mdtm feat opts mlsd mlst : Verb
  auth prot_cmd pbsz : Verb
  acct mode_cmd stru syst stat help site : Verb
  host_cmd hash mfmt abor : Verb

-- Where a transfer's goroutine stands: copying, or past `endTransfer` with its 226 to write, or
-- with only its deferred calls to make.
pub data Phase : Type 0 where
  copying ending unwinding : Phase

pub record Worker : Type 0 where
  pub command : Verb
  pub phase : Phase
  pub ctx : ℕ  -- its transferCtx

pub record Session (Ctx : Type 0) : Type 0 where
  pub is_logged_in : Bool
  pub user : Bytes
  pub rename_from : Bytes
  pub fs : Option Ctx
  pub restart_offset : ℤ
  pub host : Bytes
  pub selected_hash : Bytes
  pub transfer_type : TransferType
  pub busy : Bool
  pub transfer_ctx : Option ℕ
  pub contexts : ℕ  -- how many contexts were made
  pub cancelled : List ℕ
  pub workers : List Worker
  pub data_conn : Option ℕ
  pub pasv_list : Option ℕ
  pub active_ip : Bytes
  pub active_port : ℕ
  pub prot : Prot
  pub last_public_host : Bytes
  pub resolved_ip : Option Ip
  pub sent : List Bytes  -- the lines of listings sent over data connections
  pub upgraded : Bool  -- the connection was replaced by its TLS form
  pub mu : Bool  -- the mutex is held
  pub out : List Out  -- what was written, the latest first

-- A handler ends, or it fails by a nil pointer or an index, or it waits for its own lock.
pub data Outcome (A : Type 0) : Type 0 where
  done : A → Outcome A
  panic deadlock : Outcome A

infixl 5 ◌>>=◌
abbrev pub ◌>>=◌ : {A B : Type 0} → Outcome A → (A → Outcome B) → Outcome B
done a >>= f = f a
panic >>= f = panic
deadlock >>= f = deadlock

-- How many final replies, those that end a command, were written: 1xx announces, the rest ends.
abbrev pub finals : List Out → ℕ
finals [] = 0
finals (reply_line code _ ∷ os) = (if leb 200 code then 1 else 0) + finals os
finals (cont_line _ _ ∷ os) = finals os
finals (raw_line _ ∷ os) = finals os

module _ {Ctx : Type 0} where
  -- `newSession`, on a connection that is or is not a TLS one.
  unfoldable pub new_session : Bool → Session Ctx
  new_session implicit = record {
    is_logged_in = false;
    user = [];
    rename_from = [];
    fs = none;
    restart_offset = pos 0;
    host = [];
    selected_hash = text "SHA-256";
    transfer_type = image;
    busy = false;
    transfer_ctx = none;
    contexts = 0;
    cancelled = [];
    workers = [];
    data_conn = none;
    pasv_list = none;
    active_ip = [];
    active_port = 0;
    prot = if implicit then private else clear;
    last_public_host = [];
    resolved_ip = none;
    sent = [];
    upgraded = false;
    mu = false;
    out = [];
  }

  -- A write to the buffered writer, with no lock.
  abbrev pub write : Out → Session Ctx → Session Ctx
  write o s = record s { out = o ∷ s.out }

  abbrev pub write_all : List Out → Session Ctx → Session Ctx
  write_all [] s = s
  write_all (o ∷ os) s = write_all os (write o s)

  -- `reply` takes the mutex: sync.Mutex is not reentrant.
  unfoldable pub reply : ℕ → Bytes → Session Ctx → Outcome (Session Ctx)
  reply code message s = if s.mu then deadlock else done (write (reply_line code message) s)

  unfoldable pub reply_error : FsError → Session Ctx → Outcome (Session Ctx)
  unfolding reply
  reply_error not_exist = reply 550 (text "File not found.")
  reply_error permission = reply 550 (text "Permission denied.")
  reply_error exist = reply 550 (text "File already exists.")
  reply_error (other message) = reply 550 (text "Action failed: " ++ message)

  -- A call through `s.fs`; calling through the nil interface panics.
  abbrev pub with_fs : Session Ctx → (Ctx → Outcome (Session Ctx)) → Outcome (Session Ctx)
  with_fs s k = elim s.fs [ none ↦ panic | some c ↦ k c ]

  -- A call that changes the context: `s.fs` keeps what it returns.
  abbrev pub store : Ctx → Session Ctx → Session Ctx
  store c s = record s { fs = some c }

  -- A call of `s.fs` that may fail, with the rest of the handler.
  abbrev pub attempt :
      Ctx × Option FsError
      → Session Ctx
      → (Session Ctx → Outcome (Session Ctx))
      → Outcome (Session Ctx)
  attempt r s k = elim r.1 [ some x ↦ reply_error x (store r.0 s) | none ↦ k (store r.0 s) ]

  abbrev pub not_logged_in : Session Ctx → Outcome (Session Ctx)
  not_logged_in = reply 530 (text "Not logged in.")

  abbrev pub please_login : Session Ctx → Outcome (Session Ctx)
  please_login = reply 530 (text "Please login with USER and PASS.")
