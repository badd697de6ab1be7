-- ===== src/Client/Commands.antt =====
-- client.go and directory.go: the operations that send commands and open no data connection.
use ftp.Base.{
  ℕ, ◌+◌, ◌/◌, ◌%◌, Bool, true, false, ◌||◌, Option, none, some, List, [], ◌∷◌, ◌++◌, Bytes, text,
  bytes_eq, is_empty, fields, cut, length, if◌then◌else◌, ◌==◌, ℤ, pos, int_eq, parse_int, show_int,
  trim_space, to_upper, space, drop_run, space_width,
}
use ftp.Client.Reply.{Response}
use ftp.Client.Data.{digit_run}
use ftp.Client.Wire.{
  Wire, M, ◌>>=◌, ◌>>◌, pure, raise, modify, send_command, expect_code_of, expect_2xx_of, require,
  invalid, no_transfer, Conn, ok, err,
}

-- A feature map: the first pair of a name counts.
abbrev pub Features : Type 0
Features = List (Bytes × Bytes)

unfoldable pub feature : Features → Bytes → Option Bytes
feature [] k = none
feature ((j, v) ∷ m) k = let later = feature m k in if bytes_eq j k then some v else later

-- One line of a FEAT response that is not empty: its name in upper case, and its parameters.
abbrev add_feature : Bytes → Features → Features
add_feature line m = elim (cut space line) [
  | none ↦ (to_upper line, []) ∷ m
  | some (name, params) ↦ (to_upper name, params) ∷ m
]

abbrev feature_line : Bytes → Features → Features
feature_line [] m = m
feature_line (c ∷ s) m =
    if c == space
    then (if is_empty (trim_space (c ∷ s)) then m else add_feature (trim_space (c ∷ s)) m)
    else m

unfoldable pub collect_features : List Bytes → Features → Features
collect_features [] m = m
collect_features (l ∷ ls) m = collect_features ls (feature_line l m)

-- `parseFeatureLines`
unfoldable pub parse_feature_lines : List Bytes → Features
unfolding collect_features
parse_feature_lines ls = collect_features ls []

-- The text between the first two quotation marks (`CurrentDir`).
unfoldable pub quoted_part : Bytes → Option Bytes
quoted_part msg = elim (cut b'"' msg) [
  | none ↦ none
  | some (_, after) ↦ elim (cut b'"' after) [ none ↦ none | some (dir, _) ↦ some dir ]
]

-- White space, but no line end: fmt's SkipSpace stops there.
abbrev blank_width : Bytes → ℕ
unfolding space_width
blank_width [] = 0
blank_width (c ∷ s) = if c == 10 then 0 else space_width (c ∷ s)

skip_spaces : Bytes → Bytes
unfolding drop_run space_width
skip_spaces = drop_run blank_width 0

abbrev signed_run : Bytes → Option ℤ
signed_run [] = none
signed_run (c ∷ s) =
    if c == b'-' || c == b'+'
    then parse_int (c ∷ (digit_run s).0)
    else parse_int (digit_run (c ∷ s)).0

-- fmt.Sscanf with "%d" into an int64: spaces, a sign, and the digits that follow.
unfoldable pub scan_int : Bytes → Option ℤ
unfolding digit_run skip_spaces
scan_int s = signed_run (skip_spaces s)

-- Four octal digits at least: fmt's %04o of nine bits.
abbrev octal_mode : ℕ → Bytes
octal_mode mode = b'0' ∷ (b'0' + mode / 64 % 8) ∷ (b'0' + mode / 8 % 8) ∷ (b'0' + mode % 8) ∷ []

module _ {S : Type 0} (w : Wire S) where
  abbrev done : M S Response → M S (Unit {0})
  done m = m >>= λ _. pure tt

  -- `Login`
  unfoldable pub login : Bytes → Bytes → M S (Unit {0})
  unfolding send_command expect_code_of
  login user password = send_command w (text "USER") (user ∷ []) >>= λ r.
      if int_eq r.code (pos 230)
      then pure tt
      else (require w 331 (text "USER") r
          >> done (expect_code_of w (pos 230) (text "PASS") (password ∷ [])))

  -- `NoOp` and `Noop`
  unfoldable pub noop : M S (Unit {0})
  unfolding expect_2xx_of
  noop = done (expect_2xx_of w (text "NOOP") [])

  -- `Host`
  unfoldable pub host : Bytes → M S (Unit {0})
  unfolding expect_2xx_of
  host name = done (expect_2xx_of w (text "HOST") (name ∷ []))

  -- `Type`: a type that is already set is not sent.
  unfoldable pub set_type : Bytes → M S (Unit {0})
  unfolding expect_code_of
  set_type t c =
      if bytes_eq c.client.current_type t
      then (c, ok tt)
      else (expect_code_of w (pos 200) (text "TYPE") (t ∷ []) >>= λ _.
            modify (λ k. record k { current_type = t }))
          c

  -- `Features`: what was fetched is kept.
  unfoldable pub get_features : M S Features
  unfolding send_command parse_feature_lines
  get_features c = elim c.client.features [
    | some m ↦ (c, ok m)
    | none ↦
        (send_command w (text "FEAT") [] >>= λ r. require w 211 (text "FEAT") r >>= λ _.
        modify (λ k. record k { features = some (parse_feature_lines r.lines) }) >>= λ _.
        pure (parse_feature_lines r.lines))
          c
  ]

  -- `HasFeature`
  unfoldable pub has_feature : Bytes → Conn S → Conn S × Bool
  unfolding get_features feature
  has_feature name c = elim (get_features c).1 [
    | err _ ↦ ((get_features c).0, false)
    | ok m ↦ ((get_features c).0, elim (feature m (to_upper name)) [ none ↦ false | some _ ↦ true ])
  ]

  -- `Syst`
  unfoldable pub syst : M S Bytes
  unfolding expect_2xx_of
  syst = expect_2xx_of w (text "SYST") [] >>= λ r. pure r.message

  -- `SetOption`
  unfoldable pub set_option : Bytes → Bytes → M S (Unit {0})
  unfolding expect_2xx_of
  set_option option value = done (expect_2xx_of w (text "OPTS") (option ∷ value ∷ []))

  -- `SetHashAlgo`
  unfoldable pub set_hash_algo : Bytes → M S (Unit {0})
  unfolding expect_2xx_of
  set_hash_algo algo = done (expect_2xx_of w (text "OPTS") (text "HASH" ∷ algo ∷ []))

  abbrev second_field : List Bytes → M S Bytes
  second_field (_ ∷ h ∷ _) = pure h
  second_field _ = raise invalid

  -- `Hash`
  unfoldable pub hash : Bytes → M S Bytes
  unfolding send_command
  hash path = send_command w (text "HASH") (path ∷ []) >>= λ r.
      require w 213 (text "HASH") r >>= λ _. second_field (fields r.message)

  -- `Abort`
  unfoldable pub abort : M S (Unit {0})
  unfolding expect_2xx_of
  abort c = elim c.client.active_data_conn [
    | none ↦ (c, err no_transfer)
    | some _ ↦ done (expect_2xx_of w (text "ABOR") []) c
  ]

  -- `Quote`
  unfoldable pub quote : Bytes → List Bytes → M S Response
  unfolding send_command
  quote = send_command w

  -- `ChangeDir`
  unfoldable pub change_dir : Bytes → M S (Unit {0})
  unfolding expect_2xx_of
  change_dir path = done (expect_2xx_of w (text "CWD") (path ∷ []))

  -- `ChangeDirToParent`
  unfoldable pub change_dir_to_parent : M S (Unit {0})
  unfolding expect_2xx_of
  change_dir_to_parent = done (expect_2xx_of w (text "CDUP") [])

  -- `CurrentDir`
  unfoldable pub current_dir : M S Bytes
  unfolding expect_2xx_of quoted_part
  current_dir = expect_2xx_of w (text "PWD") [] >>= λ r. elim (quoted_part r.message) [
    | none ↦ raise invalid
    | some dir ↦ pure dir
  ]

  -- `MakeDir`
  unfoldable pub make_dir : Bytes → M S (Unit {0})
  unfolding expect_2xx_of
  make_dir path = done (expect_2xx_of w (text "MKD") (path ∷ []))

  -- `RemoveDir`
  unfoldable pub remove_dir : Bytes → M S (Unit {0})
  unfolding expect_2xx_of
  remove_dir path = done (expect_2xx_of w (text "RMD") (path ∷ []))

  -- `Delete`
  unfoldable pub delete : Bytes → M S (Unit {0})
  unfolding expect_2xx_of
  delete path = done (expect_2xx_of w (text "DELE") (path ∷ []))

  -- `Rename`
  unfoldable pub rename : Bytes → Bytes → M S (Unit {0})
  unfolding send_command expect_2xx_of
  rename from to = send_command w (text "RNFR") (from ∷ []) >>= λ r.
      require w 350 (text "RNFR") r >>= λ _. done (expect_2xx_of w (text "RNTO") (to ∷ []))

  -- `Size`
  unfoldable pub size : Bytes → M S ℤ
  unfolding expect_2xx_of scan_int
  size path = expect_2xx_of w (text "SIZE") (path ∷ []) >>= λ r. elim (scan_int r.message) [
    | none ↦ raise invalid
    | some n ↦ pure n
  ]

  -- `ModTime`, where a parameter reads the time
  unfoldable pub mod_time : {Time : Type 0} → (Bytes → Option Time) → Bytes → M S Time
  unfolding expect_2xx_of
  mod_time parse_time path = expect_2xx_of w (text "MDTM") (path ∷ []) >>= λ r.
      if length (trim_space r.message) == 14
      then (elim (parse_time (trim_space r.message)) [ none ↦ raise invalid | some t ↦ pure t ])
      else raise invalid

  -- `SetModTime`, with the time as it is printed
  unfoldable pub set_mod_time : Bytes → Bytes → M S (Unit {0})
  unfolding expect_2xx_of
  set_mod_time path stamp = done (expect_2xx_of w (text "MFMT") (stamp ∷ path ∷ []))

  -- `Chmod`
  unfoldable pub chmod : Bytes → ℕ → M S (Unit {0})
  unfolding expect_2xx_of
  chmod path mode =
      done (expect_2xx_of w (text "SITE") (text "CHMOD" ∷ octal_mode (mode % 512) ∷ path ∷ []))

  -- `RestartAt`
  unfoldable pub restart_at : ℤ → M S (Unit {0})
  unfolding send_command
  restart_at offset =
      send_command w (text "REST") (show_int offset ∷ []) >>= λ r. require w 350 (text "REST") r

  -- The data connection of the client is closed and forgotten; the lines that follow arrive.
  unfoldable pub drop_data : Conn S → Conn S
  drop_data c = elim c.client.active_data_conn [
    | none ↦ c
    | some d ↦
        let client = record c.client { active_data_conn = none } in
        elim (w.close_data d c.peer) [
          | none ↦ record c { client = client }
          | some (peer, lines) ↦ record c { client = client; peer = peer; input = c.input ++ lines }
        ]
  ]

  -- `Quit`: whatever the response is.
  unfoldable pub quit : M S (Unit {0})
  unfolding drop_data send_command
  quit c = ((send_command w (text "QUIT") [] (drop_data c)).0, ok tt)
