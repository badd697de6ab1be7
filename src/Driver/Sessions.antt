-- ===== src/Driver/Sessions.antt =====
-- Whole sessions with the file system driver (server/driver_fs.go).
use ftp.Base.{
  join, ℕ, Bool, true, false, Option, none, List, [], ◌∷◌, ◌≡◌, inl, inr, refl, arith, Bytes, All,
  Bool-cases,
}
use ftp.Session.State.{Res-cases, ok, Ip, OpenFlags, Session, done, new_session}
use ftp.Session.Worker.{Event, line, work, run}
use ftp.Session.Keep.{Preserves, Holds}
use ftp.Session.Keep.Sessions.{Respects, session_keeps}
use ftp.Driver.Path.{slash, virtual, resolve}
use ftp.Driver.Context.{
  mode_for, umask_of, Root, FsContext, writes, read_flags, next_cwd, change_dir, make_dir, remove,
  rename, open_file, set_time, chmod, fs_context, FsDriver, authenticate,
}
use ftp.Driver.Confined.{IsVirtual, clean-IsVirtual, virtual-is_rooted, IsVirtual-is_rooted}

module _ {Fs : Type 0} where
  -- The working directory is a virtual path.
  abbrev pub IsHome : FsContext Fs → Type 0
  IsHome c = IsVirtual c.cwd

  -- The files are as they were, and the context may not write.
  abbrev pub IsUntouched : Fs → FsContext Fs → Type 0
  IsUntouched fs c = (c.read_only ≡ true) × (c.files ≡ fs)

module _ {Fs : Type 0} (root : Root Fs) where
  next_cwd-IsVirtual : (cwd path : Bytes) → IsVirtual cwd → IsVirtual (next_cwd cwd path)
  unfolding next_cwd
  next_cwd-IsVirtual cwd path v =
      let w =
        clean-IsVirtual (virtual cwd path)
          (virtual-is_rooted cwd path (IsVirtual-is_rooted cwd v)) in
      rw (IsVirtual-is_rooted _ w) w

  change_dir-IsHome :
      (path : Bytes) (c : FsContext Fs) → IsHome c → IsHome (change_dir root path c).0
  unfolding change_dir
  change_dir-IsHome path c v = ground (arith, next_cwd-IsVirtual c.cwd path v)

  fs_context-IsHome : Preserves (fs_context root) IsHome
  unfolding fs_context make_dir remove rename open_file set_time chmod
  fs_context-IsHome = record {
    change_dir = change_dir-IsHome;
    make_dir = λ path c v. ground arith;
    remove_dir = λ path c v. ground arith;
    delete_file = λ path c v. ground arith;
    rename = λ from_path to_path c v. ground arith;
    open_file = λ path flags c v. ground arith;
    set_time = λ path t c v. ground arith;
    chmod = λ path mode c v. ground arith;
  }

  module _
      (reads : (rel : Bytes) (mode : ℕ) (fs : Fs) → (root.open_with rel read_flags mode fs).0 ≡ fs)
      (fs : Fs) where
    only_reads : (flags : OpenFlags) → writes flags ≡ false → flags ≡ read_flags
    only_reads flags h = ground arith

    open_file-IsUntouched :
        (path : Bytes) (flags : OpenFlags) (c : FsContext Fs)
        → IsUntouched fs c
        → IsUntouched fs (open_file root path flags c).0
    unfolding open_file
    open_file-IsUntouched path flags c h = elim (Bool-cases (writes flags)) [
      | inl w ↦ ground arith
      | inr w ↦ rw (only_reads flags w) (elim (Res-cases (resolve c.cwd path)) [
        | inl (x, f) ↦ ground arith
        | inr (rel, f) ↦ ground (arith, reads rel (mode_for root 438 420 (umask_of c)) c.files)
      ])
    ]

    fs_context-IsUntouched : Preserves (fs_context root) (IsUntouched fs)
    unfolding fs_context change_dir make_dir remove rename set_time chmod
    fs_context-IsUntouched = record {
      change_dir = λ path c v. ground arith;
      make_dir = λ path c v. ground arith;
      remove_dir = λ path c v. ground arith;
      delete_file = λ path c v. ground arith;
      rename = λ from_path to_path c v. ground arith;
      open_file = open_file-IsUntouched;
      set_time = λ path t c v. ground arith;
      chmod = λ path mode c v. ground arith;
    }

module _ {Fs : Type 0} (root : Root Fs) (d : FsDriver Fs) where
  -- Each line meets the driver `d` and its contexts over `root`.
  abbrev pub Uses : Event (FsContext Fs) → Type 0
  Uses (line e _) = (e.driver ≡ fs_context root) × (e.authenticate ≡ authenticate d)
  Uses (work _ _) = Unit

  All-Respects :
      (P : FsContext Fs → Type 0)
      → Preserves (fs_context root) P
      → ((user pass host : Bytes) (ip : Option Ip) (c : FsContext Fs)
          → authenticate d user pass host ip ≡ ok c
          → P c)
      → (vs : List (Event (FsContext Fs))) → All Uses vs
      → All (Respects P) vs
  All-Respects P keeps grants [] u = tt
  All-Respects P keeps grants (line e l ∷ vs) ((f, g), u) =
      ((rw f keeps, rw g grants), All-Respects P keeps grants vs u)
  All-Respects P keeps grants (work _ _ ∷ vs) (_, u) = (tt, All-Respects P keeps grants vs u)

  starts_at_root :
      (user pass host : Bytes) (ip : Option Ip) (c : FsContext Fs)
      → authenticate d user pass host ip ≡ ok c
      → c.cwd ≡ slash
  unfolding authenticate
  starts_at_root user pass host ip c h = ground arith

  root-IsVirtual : IsVirtual slash
  unfolding join
  root-IsVirtual = record { names = []; all_names = tt; printed = refl }

  pub Uses-Respects : (vs : List (Event (FsContext Fs))) → All Uses vs → All (Respects IsHome) vs
  Uses-Respects vs u =
      All-Respects IsHome (fs_context-IsHome root)
        (λ user pass host ip c h. rw (starts_at_root user pass host ip c h) root-IsVirtual) vs u

  -- After any sequence of lines and of goroutine steps that neither panics nor hangs, on a new session
  -- that meets a file system driver: the working directory, if there is a login, is a path from the
  -- root without "." and "..".
  pub cwd_stays_virtual :
      (implicit : Bool) (vs : List (Event (FsContext Fs))) (t : Session (FsContext Fs))
      → All Uses vs
      → run vs (new_session implicit) ≡ done t
      → Holds IsHome t.fs
  unfolding new_session
  cwd_stays_virtual implicit vs t u e =
      session_keeps IsHome vs (new_session implicit) t (Uses-Respects vs u) tt e

  module _ (fs : Fs) where
    enters_read_only :
        d.authenticator ≡ none
        → d.enable_anon_write ≡ false
        → d.open_root d.root_path ≡ ok fs
        → (user pass host : Bytes) (ip : Option Ip) (c : FsContext Fs)
        → authenticate d user pass host ip ≡ ok c
        → IsUntouched fs c
    unfolding authenticate
    enters_read_only a w o user pass host ip c h = ground arith

    -- With no authenticator and no anonymous write access, and a root whose files an opening for
    -- reading leaves as they are: after any sequence of lines and of goroutine steps that neither
    -- panics nor hangs, on a new session, the files are those that the root held, if there is a login.
    pub anonymous_reads_only :
        ((rel : Bytes) (mode : ℕ) (g : Fs) → (root.open_with rel read_flags mode g).0 ≡ g)
        → d.authenticator ≡ none
        → d.enable_anon_write ≡ false
        → d.open_root d.root_path ≡ ok fs
        → (implicit : Bool) (vs : List (Event (FsContext Fs))) (t : Session (FsContext Fs))
        → All Uses vs
        → run vs (new_session implicit) ≡ done t
        → Holds (IsUntouched fs) t.fs
    unfolding new_session
    anonymous_reads_only reads a w o implicit vs t u e =
        session_keeps (IsUntouched fs) vs (new_session implicit) t
          (All-Respects (IsUntouched fs) (fs_context-IsUntouched root reads fs)
            (enters_read_only a w o) vs u)
          tt e
