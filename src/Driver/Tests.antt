-- ===== src/Driver/Tests.antt =====
-- An anonymous visit to a file system driver (server/driver_fs.go) over a root that counts its changes.
use ftp.Base.{
  trim_right, bytes_eq, cut, to_upper, has_prefix, ℕ, suc, true, false, none, some, List, [], ◌∷◌,
  ◌≡◌, refl, Bytes, text, if◌then◌else◌, All,
}
use ftp.Session.State.{FileInfo, ok, Env, Session, Outcome, done, new_session}
use ftp.Session.Worker.{Event, line, work, run}
use ftp.Session.Dispatch.{handle_command, guarded, parse_line, dispatch, find_handler, run_handler}
use ftp.Session.Info.{handle_user, handle_pass}
use ftp.Session.File.{handle_cwd, handle_mkd, dir_message}
use ftp.Session.Keep.{Holds}
use ftp.Session.Tests.{net, config}
use ftp.Driver.Path.{resolve, is_rooted}
use ftp.Driver.Context.{
  change_dir, next_cwd, make_dir, Root, FsContext, FsDriver, fs_context, authenticate, writes,
  read_flags,
}
use ftp.Driver.Confined.{IsBelow, resolve-IsBelow}
use ftp.Driver.Sessions.{IsHome, IsUntouched, Uses, cwd_stays_virtual, anonymous_reads_only}

abbrev a_directory : FileInfo
a_directory = record {
  name = text "d";
  is_dir = true;
  size = 0;
  mod_time = text "t";
  list_time = text "t";
  mode = text "m";
}

abbrev root : Root ℕ
root = record {
  stat = λ _ _. ok a_directory;
  mkdir = λ _ _ n. (suc n, none);
  remove = λ _ n. (suc n, none);
  rename_to = λ _ _ n. (suc n, none);
  read_dir = λ _ _. ok (some a_directory ∷ none ∷ []);
  open_with = λ _ flags _ n. (if writes flags then suc n else n, ok (record { seek = none }));
  open_read = λ _ _. ok (text "hello", none);
  chtimes = λ _ _ n. (suc n, none);
  set_mode = λ _ _ n. (suc n, none);
  clear_bits = λ a _. a;
  sum = λ _ b. b;
  nesting = 1;
}

abbrev fs_driver : FsDriver ℕ
fs_driver = record {
  root_path = text "/srv";
  authenticator = none;
  disable_anonymous = false;
  enable_anon_write = false;
  driver_settings = none;
  open_root = λ _. ok 5;
}

abbrev fs_env : Env (FsContext ℕ)
fs_env = record {
  config = config;
  net = net;
  driver = fs_context root;
  authenticate = authenticate fs_driver;
}

abbrev visit : List (Event (FsContext ℕ))
visit =
    line fs_env (text "USER ftp")
    ∷ line fs_env (text "PASS x")
    ∷ line fs_env (text "CWD ../a/./b/../c")
    ∷ line fs_env (text "MKD x")
    ∷ work 0 false
    ∷ []

abbrev visit_meets : All (Uses root fs_driver) visit
visit_meets = ((refl, refl), ((refl, refl), ((refl, refl), ((refl, refl), (tt, tt)))))

abbrev state_of : Outcome (Session (FsContext ℕ)) → Session (FsContext ℕ)
state_of (done s) = s
state_of _ = new_session false

after_visit : run visit (new_session false) ≡ done (state_of (run visit (new_session false)))
unfolding run handle_command trim_right text guarded new_session bytes_eq parse_line cut to_upper
    dispatch handle_user handle_pass authenticate find_handler run_handler handle_cwd fs_context
    change_dir resolve next_cwd handle_mkd make_dir dir_message
after_visit = refl

visit_ends_in :
    (state_of (run visit (new_session false))).fs
    ≡ some (record { files = 5; cwd = text "/a/c"; read_only = true; settings = none })
unfolding run handle_command trim_right text guarded new_session bytes_eq parse_line cut to_upper
    dispatch handle_user handle_pass authenticate find_handler run_handler handle_cwd fs_context
    change_dir resolve next_cwd handle_mkd make_dir dir_message
visit_ends_in = refl

from_root : is_rooted (text "/a") ≡ true
unfolding text has_prefix
from_root = refl

resolve-IsBelow_example :
    (rel : Bytes) × (resolve (text "/a") (text "../../b") ≡ ok rel) × IsBelow rel
resolve-IsBelow_example = resolve-IsBelow (text "/a") (text "../../b") from_root

started : Holds IsHome (new_session {Ctx = FsContext ℕ} false).fs
unfolding new_session
started = tt

cwd_stays_virtual_example : Holds IsHome (state_of (run visit (new_session false))).fs
cwd_stays_virtual_example = cwd_stays_virtual root fs_driver false visit _ visit_meets after_visit

reads : (rel : Bytes) (mode : ℕ) (n : ℕ) → (root.open_with rel read_flags mode n).0 ≡ n
reads rel mode n = refl

anonymous_reads_only_example : Holds (IsUntouched 5) (state_of (run visit (new_session false))).fs
anonymous_reads_only_example =
    anonymous_reads_only root fs_driver 5 reads refl refl refl false visit _ visit_meets after_visit
