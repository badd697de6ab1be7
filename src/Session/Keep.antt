-- ===== src/Session/Keep.antt =====
-- What the handlers of server/session*.go keep of the driver's context: a property that every method
-- of the driver keeps.
pub mod Files
pub mod Transfers
pub mod Answers
pub mod Sessions
use ftp.Base.{Option, none, some, Bytes, ℕ, List, [], ◌∷◌, ◌≡◌, refl, inl, inr, Option-cases}
use ftp.Session.State.{
  Out, write, write_all, ClientContext, Session, Outcome, done, panic, deadlock, OpenFlags,
}

module _ {Ctx : Type 0} where
  -- Every method that changes the context keeps `P`.
  pub record Preserves (d : ClientContext Ctx) (P : Ctx → Type 0) : Type 0 where
    pub change_dir : (path : Bytes) (c : Ctx) → P c → P (d.change_dir path c).0
    pub make_dir : (path : Bytes) (c : Ctx) → P c → P (d.make_dir path c).0
    pub remove_dir : (path : Bytes) (c : Ctx) → P c → P (d.remove_dir path c).0
    pub delete_file : (path : Bytes) (c : Ctx) → P c → P (d.delete_file path c).0
    pub rename : (from_path to_path : Bytes) (c : Ctx) → P c → P (d.rename from_path to_path c).0
    pub open_file :
        (path : Bytes) (flags : OpenFlags) (c : Ctx) → P c → P (d.open_file path flags c).0
    pub set_time : (path t : Bytes) (c : Ctx) → P c → P (d.set_time path t c).0
    pub chmod : (path : Bytes) (mode : ℕ) (c : Ctx) → P c → P (d.chmod path mode c).0

  -- The session's context, if it has one, has the property.
  abbrev pub Holds : (Ctx → Type 0) → Option Ctx → Type 0
  Holds P none = Unit
  Holds P (some c) = P c

  abbrev pub Keeps : (Ctx → Type 0) → Outcome (Session Ctx) → Type 0
  Keeps P (done t) = Holds P t.fs
  Keeps P panic = Unit
  Keeps P deadlock = Unit

  -- A handler keeps `P` if it does with no context and with every context that has `P`.
  pub with_context :
      (P : Ctx → Type 0) (s : Session Ctx) (o : Outcome (Session Ctx))
      → Holds P s.fs
      → (s.fs ≡ none → Keeps P o)
      → ((c : Ctx) → s.fs ≡ some c → P c → Keeps P o)
      → Keeps P o
  with_context P s o h f g = elim (Option-cases s.fs) [
    | inl e ↦ f e
    | inr (c, e) ↦ g c e (rw e at h)
  ]

  pub write_all-fs : (os : List Out) (s : Session Ctx) → (write_all os s).fs ≡ s.fs
  write_all-fs [] s = refl
  write_all-fs (o ∷ os) s = write_all-fs os (write o s)
