-- ===== src/Session/Contract.antt =====
-- What every command handler of server/session*.go guarantees, as one contract.
pub mod Files
pub mod Transfers
pub mod Answers
pub mod Commands
pub mod Site
pub mod Lines
use ftp.Base.{ℕ, ◌+◌, ◌≤◌, Bool, true, false, Option, none, some, List, [], ◌∷◌, ◌≡◌, ◌⊎◌, Bytes}
use ftp.Session.State.{
  Env, Ip, FileInfo, ok, copying, ending, unwinding, Phase, Worker, Session, Outcome, done, panic,
  deadlock, finals,
}
use ftp.Session.Transfer.{validate_active_ip}
use ftp.Session.Info.{is_hash_name}

abbrev pub owes : Phase → ℕ
owes copying = 1
owes ending = 1
owes unwinding = 0

-- How many goroutines have still to write the final reply of their command.
abbrev pub owed : List Worker → ℕ
owed [] = 0
owed (w ∷ ws) = owes w.phase + owed ws

abbrev pub has_value {ℓ} : {A : Type ℓ} → Option A → Bool
has_value none = false
has_value (some _) = true

module _ {Ctx : Type 0} where
  -- What holds of a session between two commands.
  pub record Inv (s : Session Ctx) : Type 0 where
    pub unlocked : s.mu ≡ false
    pub linked : has_value s.fs ≡ s.is_logged_in
    pub port_fits : s.active_port ≤ 65535
    pub known_hash : is_hash_name s.selected_hash ≡ true

  -- An address is one that `validateActiveIP` let pass.
  pub record IsPeer (e : Env Ctx) (address : Bytes) : Type 0 where
    pub ip : Ip
    pub printed : address ≡ e.net.ip_string ip
    pub same_host : validate_active_ip e ip ≡ true

  -- A path that GetFileInfo finds, in the session's context.
  pub record Exists (e : Env Ctx) (s : Session Ctx) (path : Bytes) : Type 0 where
    pub context : Ctx
    pub info : FileInfo
    pub current : s.fs ≡ some context
    pub found : e.driver.get_file_info path context ≡ ok info

  pub record Served (e : Env Ctx) (s t : Session Ctx) : Type 0 where
    pub inv : Inv t
    pub answered : finals t.out + owed t.workers ≡ finals s.out + owed s.workers + 1
    pub target : (t.active_ip ≡ s.active_ip) ⊎ ((t.active_ip ≡ []) ⊎ IsPeer e t.active_ip)
    pub renaming :
        (t.rename_from ≡ s.rename_from) ⊎ ((t.rename_from ≡ []) ⊎ Exists e s t.rename_from)
    pub login : t.is_logged_in ≡ s.is_logged_in
    pub untouched : s.is_logged_in ≡ false → t.fs ≡ s.fs

  -- The handler ends, and has served its command.
  abbrev pub Serves : Env Ctx → Session Ctx → Outcome (Session Ctx) → Type 0
  Serves e s (done t) = Served e s t
  Serves e s panic = ⊥
  Serves e s deadlock = ⊥

  -- The handler serves its command or panics.
  abbrev pub ServesOrPanics : Env Ctx → Session Ctx → Outcome (Session Ctx) → Type 0
  ServesOrPanics e s (done t) = Served e s t
  ServesOrPanics e s panic = Unit
  ServesOrPanics e s deadlock = ⊥
