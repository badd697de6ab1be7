-- ===== src/Driver/Context.antt =====
-- server/driver_fs.go: Authenticate and fsContext, an implementation of the driver's interface over a
-- root handle (os.Root), whose operations are parameters.
use ftp.Base.{
  ℕ, zero, suc, Bool, false, not, ◌&&◌, ◌||◌, Option, none, some, List, [], ◌∷◌, Bytes, text,
  bytes_eq, to_upper, take, leb, if◌then◌else◌, ℤ, pos, negsuc,
}
use ftp.Session.State.{
  FsError, permission, other, Res, ok, fail, Ip, FileInfo, OpenFlags, File, Settings, ClientContext,
}
use ftp.Driver.Path.{clean, virtual, is_rooted, slash, resolve}

-- The hashes of GetHash.
pub data Digest : Type 0 where
  sha256 sha512 sha1 md5 crc32 : Digest

-- An os.Root and the files below it: what each call returns, and the files after it.
pub record Root (Fs : Type 0) : Type 0 where
  pub stat : Bytes → Fs → Res FileInfo
  pub mkdir : Bytes → ℕ → Fs → Fs × Option FsError
  pub remove : Bytes → Fs → Fs × Option FsError
  pub rename_to : Bytes → Bytes → Fs → Fs × Option FsError
  pub read_dir : Bytes → Fs → Res (List (Option FileInfo))  -- none: the entry's Info failed
  pub open_with : Bytes → OpenFlags → ℕ → Fs → Fs × Res File
  pub open_read : Bytes → Fs → Res (Bytes × Option FsError)  -- Open; what is read, and its error
  pub chtimes : Bytes → Bytes → Fs → Fs × Option FsError
  pub set_mode : Bytes → ℕ → Fs → Fs × Option FsError
  pub clear_bits : ℕ → ℤ → ℕ  -- a &^ b
  pub sum : Digest → Bytes → Bytes  -- in hexadecimal
  pub nesting : ℕ  -- a bound on how deep directories nest

pub record FsContext (Fs : Type 0) : Type 0 where
  pub files : Fs
  pub cwd : Bytes
  pub read_only : Bool
  pub settings : Option Settings

abbrev pub no_settings : Settings
no_settings = record {
  public_host = [];
  pasv_min_port = pos 0;
  pasv_max_port = pos 0;
  umask = pos 0;
}

abbrev pub settings_of : Option Settings → Settings
settings_of none = no_settings
settings_of (some t) = t

unfoldable pub find_digest : Bytes → Option Digest
find_digest algo =
    let name = to_upper algo in
    if bytes_eq name (text "SHA-256") || bytes_eq name (text "SHA256")
    then some sha256
    else if bytes_eq name (text "SHA-512") || bytes_eq name (text "SHA512")
    then some sha512
    else if bytes_eq name (text "SHA-1") || bytes_eq name (text "SHA1")
    then some sha1
    else if bytes_eq name (text "MD5")
    then some md5
    else if bytes_eq name (text "CRC32")
    then some crc32
    else none

abbrev pub known : List (Option FileInfo) → List FileInfo
known [] = []
known (none ∷ es) = known es
known (some e ∷ es) = e ∷ known es

-- Any of the flags that write.
abbrev pub writes : OpenFlags → Bool
writes f = f.writing || (f.create || (f.truncate || f.append))

abbrev pub read_flags : OpenFlags
read_flags = record { writing = false; create = false; truncate = false; append = false }

-- The working directory that ChangeDir stores.
unfoldable pub next_cwd : Bytes → Bytes → Bytes
unfolding virtual clean
next_cwd cwd path = let p = clean (virtual cwd path) in if is_rooted p then p else b'/' ∷ p

module _ {Fs : Type 0} where
  abbrev pub umask_of : FsContext Fs → ℤ
  umask_of c = (settings_of c.settings).umask

  -- A call on the files at a resolved path.
  abbrev pub at_path :
      FsContext Fs → Bytes → (Bytes → Fs × Option FsError) → FsContext Fs × Option FsError
  at_path c path call = elim (resolve c.cwd path) [
    | fail x ↦ (c, some x)
    | ok rel ↦ let r = call rel in (record c { files = r.0 }, r.1)
  ]

  abbrev pub guard_write :
      FsContext Fs → FsContext Fs × Option FsError → FsContext Fs × Option FsError
  guard_write c r = if c.read_only then (c, some permission) else r

module _ {Fs : Type 0} (root : Root Fs) where
  -- The mode of a new file or directory under the umask of the settings, if that is above 0.
  abbrev pub mode_for : ℕ → ℕ → ℤ → ℕ
  mode_for all default (pos zero) = default
  mode_for all default (pos (suc u)) = root.clear_bits all (pos (suc u))
  mode_for all default (negsuc _) = default

  unfoldable pub change_dir : Bytes → FsContext Fs → FsContext Fs × Option FsError
  unfolding resolve
  change_dir path c = elim (resolve c.cwd path) [
    | fail x ↦ (c, some x)
    | ok rel ↦ elim (root.stat rel c.files) [
      | fail x ↦ (c, some x)
      | ok info ↦
          if not info.is_dir
          then (c, some (other (text "not a directory")))
          else (record c { cwd = next_cwd c.cwd path }, none)
    ]
  ]

  unfoldable pub make_dir : Bytes → FsContext Fs → FsContext Fs × Option FsError
  make_dir path c =
      guard_write c (at_path c path (λ rel. root.mkdir rel (mode_for 511 493 (umask_of c)) c.files))

  -- RemoveDir and DeleteFile: both call Remove.
  unfoldable pub remove : Bytes → FsContext Fs → FsContext Fs × Option FsError
  remove path c = guard_write c (at_path c path (λ rel. root.remove rel c.files))

  unfoldable pub rename : Bytes → Bytes → FsContext Fs → FsContext Fs × Option FsError
  rename from_path to_path c = guard_write c (elim (resolve c.cwd from_path) [
    | fail x ↦ (c, some x)
    | ok src ↦ at_path c to_path (λ dst. root.rename_to src dst c.files)
  ])

  unfoldable pub list_dir : Bytes → FsContext Fs → Res (List FileInfo)
  list_dir path c = elim (resolve c.cwd path) [
    | fail x ↦ fail x
    | ok rel ↦ elim (root.read_dir rel c.files) [ fail x ↦ fail x | ok es ↦ ok (known es) ]
  ]

  unfoldable pub open_file : Bytes → OpenFlags → FsContext Fs → FsContext Fs × Res File
  open_file path flags c =
      if c.read_only && writes flags then (c, fail permission) else (elim (resolve c.cwd path) [
        | fail x ↦ (c, fail x)
        | ok rel ↦
            let r = root.open_with rel flags (mode_for 438 420 (umask_of c)) c.files in
            (record c { files = r.0 }, r.1)
      ])

  unfoldable pub get_file_info : Bytes → FsContext Fs → Res FileInfo
  get_file_info path c = elim (resolve c.cwd path) [
    | fail x ↦ fail x
    | ok rel ↦ root.stat rel c.files
  ]

  unfoldable pub get_hash : Bytes → Bytes → FsContext Fs → Res Bytes
  get_hash path algo c = elim (resolve c.cwd path) [
    | fail x ↦ fail x
    | ok rel ↦ elim (root.open_read rel c.files) [
      | fail x ↦ fail x
      | ok content ↦ elim (find_digest algo) [
        | none ↦ fail (other (text "unsupported algorithm"))
        | some d ↦ elim content.1 [ some x ↦ fail x | none ↦ ok (root.sum d content.0) ]
      ]
    ]
  ]

  unfoldable pub set_time : Bytes → Bytes → FsContext Fs → FsContext Fs × Option FsError
  set_time path t c = guard_write c (at_path c path (λ rel. root.chtimes rel t c.files))

  unfoldable pub chmod : Bytes → ℕ → FsContext Fs → FsContext Fs × Option FsError
  chmod path mode c = guard_write c (
      if not (leb mode 511)
      then (c, some (other (text "invalid argument")))
      else at_path c path (λ rel. root.set_mode rel mode c.files))

  -- What the handler of CWD reads of ".message", which it opens for reading.
  unfoldable pub message_file : FsContext Fs → Option Bytes
  message_file c = elim (resolve c.cwd (text ".message")) [
    | fail x ↦ none
    | ok rel ↦ elim (root.open_read rel c.files) [
      | fail x ↦ none
      | ok content ↦ some (take 2048 content.0)
    ]
  ]

  -- fsContext as a driver's context.
  unfoldable pub fs_context : ClientContext (FsContext Fs)
  fs_context = record {
    change_dir = change_dir;
    get_wd = λ c. ok c.cwd;
    make_dir = make_dir;
    remove_dir = remove;
    delete_file = remove;
    rename = rename;
    list_dir = list_dir;
    open_file = open_file;
    get_file_info = get_file_info;
    get_hash = get_hash;
    set_time = set_time;
    chmod = chmod;
    get_settings = λ c. some (settings_of c.settings);
    depth = root.nesting;
    message_file = message_file;
  }

-- An FSDriver; `open_root` is os.OpenRoot.
pub record FsDriver (Fs : Type 0) : Type 0 where
  pub root_path : Bytes
  pub authenticator : Option (Bytes → Bytes → Bytes → Option Ip → Res (Bytes × Bool))
  pub disable_anonymous : Bool
  pub enable_anon_write : Bool
  pub driver_settings : Option Settings
  pub open_root : Bytes → Res Fs

module _ {Fs : Type 0} (d : FsDriver Fs) where
  abbrev pub open_at : Bytes → Bool → Res (FsContext Fs)
  open_at path read_only = elim (d.open_root path) [
    | fail x ↦ fail x
    | ok fs ↦
        ok (record { files = fs; cwd = slash; read_only = read_only; settings = d.driver_settings })
  ]

  unfoldable pub authenticate : Bytes → Bytes → Bytes → Option Ip → Res (FsContext Fs)
  authenticate user pass host ip = elim d.authenticator [
    | some check ↦ elim (check user pass host ip) [
      | fail x ↦ fail x
      | ok (path, read_only) ↦ open_at path read_only
    ]
    | none ↦
        if d.disable_anonymous
        then fail (other (text "anonymous login disabled"))
        else if not (bytes_eq user (text "ftp")) && not (bytes_eq user (text "anonymous"))
        then fail (other (text "only anonymous login allowed"))
        else open_at d.root_path (not d.enable_anon_write)
  ]
