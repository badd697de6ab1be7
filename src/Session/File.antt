-- ===== src/Session/File.antt =====
-- server/session_file.go: directories, listings, deletion and renaming; and the data connection of
-- server/session.go that listings use.
use ftp.Base.{
  ℕ, zero, suc, Bool, false, not, ◌&&◌, ◌||◌, Option, none, some, List, [], ◌∷◌, ◌++◌, map, Bytes,
  text, bytes_eq, is_empty, has_prefix, ends_with, contains_byte, fields, split, trim_right, is_eol,
  cr, lf, if◌then◌else◌, show_nat, ◌==◌,
}
use ftp.Session.State.{
  FsError, Res, ok, fail, error_text, FileInfo, Env, clear, private, Out, cont_line, Session,
  Outcome, done, ◌>>=◌, write_all, reply, reply_error, with_fs, store, attempt, not_logged_in,
  please_login,
}
use ftp.Session.Text.{quote}

-- `printListEntry`
unfoldable pub list_entry : FileInfo → Bytes
list_entry f =
    f.mode
    ++ (text " 1 owner group "
        ++ (show_nat f.size
            ++ (text " " ++ (f.list_time ++ (text " " ++ (f.name ++ (cr ∷ lf ∷ [])))))))

unfoldable pub sub_path : Bytes → Bytes → Bytes
sub_path path name =
    if is_empty path || bytes_eq path (text ".")
    then name
    else if ends_with b'/' path
    then path ++ name
    else path ++ (b'/' ∷ name)

abbrev pub is_sub_dir : FileInfo → Bool
is_sub_dir f = f.is_dir && (not (bytes_eq f.name (text ".")) && not (bytes_eq f.name (text "..")))

-- The line between two directories of a recursive listing.
abbrev pub dir_header : Bytes → Bytes
dir_header path = cr ∷ lf ∷ (path ++ (b':' ∷ cr ∷ lf ∷ []))

-- The flags and the path of LIST: the last word that is no flag is the path.
unfoldable pub list_args : List Bytes → Bool → Bytes → Bool × Bytes
list_args [] recursive path = (recursive, path)
list_args (a ∷ rest) recursive path =
    list_args rest
      (if has_prefix a (text "-") then recursive || contains_byte b'R' a else recursive)
      (if has_prefix a (text "-") then path else a)

-- The second loop of `listRecursive`, with the recursive call as an argument.
unfoldable pub list_subs :
    (Bytes → Option FsError × List Bytes) → Bytes → List FileInfo → List Bytes
list_subs recurse path [] = []
list_subs recurse path (f ∷ fs) =
    let rest = list_subs recurse path fs in
    if is_sub_dir f
    then dir_header (sub_path path f.name) ∷ ((recurse (sub_path path f.name)).1 ++ rest)
    else rest

-- `listRecursive`, for directories nested at most `fuel` deep.
unfoldable pub list_recursive :
    (Bytes → Res (List FileInfo)) → ℕ → Bytes → Option FsError × List Bytes
unfolding list_subs
list_recursive list_dir zero path = (none, [])
list_recursive list_dir (suc fuel) path = elim (list_dir path) [
  | fail x ↦ (some x, [])
  | ok entries ↦
      (none, map list_entry entries ++ list_subs (list_recursive list_dir fuel) path entries)
]

-- The lines of a .message file, each without its line end.
unfoldable pub message_lines : Bytes → List Out
message_lines b =
    cont_line 250 (text "Message:")
    ∷ map (λ line. cont_line 250 (trim_right (λ c. c == cr) line)) (split lf (trim_right is_eol b))

module _ {Ctx : Type 0} (e : Env Ctx) where
  -- `wrapDataConn`: with PROT P the handshake decides, and needs a configuration.
  abbrev pub wrap_data_conn : Session Ctx → ℕ → Option ℕ
  wrap_data_conn s c = elim s.prot [
    | clear ↦ some c
    | private ↦ if e.config.tls && e.net.handshake c then some c else none
  ]

  -- `connPassive`: the listener is dropped once a connection was accepted.
  unfoldable pub conn_passive : ℕ → Session Ctx → Session Ctx × Option ℕ
  conn_passive l s = elim (e.net.accept l) [
    | none ↦ (s, none)
    | some c ↦ (record s { pasv_list = none }, wrap_data_conn s c)
  ]

  -- `connActive`: the address is used once.
  unfoldable pub conn_active : Session Ctx → Session Ctx × Option ℕ
  conn_active s = elim (e.net.dial s.active_ip s.active_port) [
    | none ↦ (s, none)
    | some c ↦ (record s { active_ip = [] }, wrap_data_conn s c)
  ]

  -- `connData`: a passive listener goes before an active address.
  unfoldable pub conn_data : Session Ctx → Session Ctx × Option ℕ
  unfolding conn_passive conn_active
  conn_data s = elim s.pasv_list [
    | some l ↦ conn_passive l s
    | none ↦ if is_empty s.active_ip then (s, none) else conn_active s
  ]

  -- The rest of a handler that needs a data connection.
  abbrev pub with_data :
      Session Ctx → (ℕ → Session Ctx → Outcome (Session Ctx)) → Outcome (Session Ctx)
  with_data s k =
      let r = conn_data s in
      elim r.1 [ none ↦ reply 425 (text "Can't open data connection.") r.0 | some c ↦ k c r.0 ]

  unfoldable pub handle_pwd : Session Ctx → Outcome (Session Ctx)
  unfolding reply reply_error
  handle_pwd s =
      if not s.is_logged_in
      then please_login s
      else with_fs s (λ c. elim (e.driver.get_wd c) [
        | fail x ↦ reply_error x s
        | ok dir ↦ reply 257 (quote dir ++ text " is the current directory.") s
      ])

  unfoldable pub dir_message : Ctx → List Out
  unfolding message_lines
  dir_message c =
      if e.config.enable_dir_message
      then (elim (e.driver.message_file c) [
        | none ↦ []
        | some b ↦ if is_empty b then [] else message_lines b
      ])
      else []

  unfoldable pub handle_cwd : Bytes → Session Ctx → Outcome (Session Ctx)
  unfolding reply reply_error
  handle_cwd path s =
      if not s.is_logged_in
      then please_login s
      else with_fs s (λ c.
        let r = e.driver.change_dir path c in
        attempt r s
          (λ t. reply 250 (text "Directory successfully changed.") (write_all (dir_message r.0) t)))

  abbrev pub handle_cdup : Session Ctx → Outcome (Session Ctx)
  handle_cdup = handle_cwd (text "..")

  -- What LIST sends, and its error.
  unfoldable pub listing : Bool → Bytes → Ctx → Option FsError × List Bytes
  unfolding list_recursive
  listing recursive path c =
      if recursive
      then list_recursive (λ p. e.driver.list_dir p c) e.driver.depth path
      else (elim (e.driver.list_dir path c) [
        | fail x ↦ (some x, [])
        | ok entries ↦ (none, map list_entry entries)
      ])

  unfoldable pub handle_list : Bytes → Session Ctx → Outcome (Session Ctx)
  unfolding reply conn_data
  handle_list arg s =
      if not s.is_logged_in
      then not_logged_in s
      else with_data s (λ conn t.
        let args = list_args (fields arg) false [] in
        do
          u ← reply 150 (text "Here comes the directory listing.") t
          with_fs u (λ c.
              let l = listing args.0 args.1 c in
              let v = record u { sent = u.sent ++ l.1 } in
              elim l.0 [
                | some x ↦ reply 550 (text "Error listing directory: " ++ error_text x) v
                | none ↦ reply 226 (text "Directory send OK.") v
              ]))

  -- A listing of one directory on a data connection, as NLST and MLSD make it.
  abbrev pub send_lines : Bytes → Bytes → List Bytes → Session Ctx → Outcome (Session Ctx)
  send_lines start finish lines s =
      with_data s
        (λ conn t. do u ← reply 150 start t; reply 226 finish (record u { sent = u.sent ++ lines }))

  unfoldable pub handle_nlst : Bytes → Session Ctx → Outcome (Session Ctx)
  unfolding reply reply_error conn_data
  handle_nlst path s =
      if not s.is_logged_in
      then not_logged_in s
      else with_fs s (λ c. elim (e.driver.list_dir path c) [
        | fail x ↦ reply_error x s
        | ok entries ↦
            send_lines (text "Here comes the file list.") (text "Transfer complete.")
              (map (λ f. f.name ++ (cr ∷ lf ∷ [])) entries) s
      ])

  unfoldable pub handle_mkd : Bytes → Session Ctx → Outcome (Session Ctx)
  unfolding reply reply_error
  handle_mkd path s =
      if not s.is_logged_in
      then not_logged_in s
      else with_fs s
          (λ c. attempt (e.driver.make_dir path c) s (reply 257 (quote path ++ text " created.")))

  unfoldable pub handle_rmd : Bytes → Session Ctx → Outcome (Session Ctx)
  unfolding reply reply_error
  handle_rmd path s =
      if not s.is_logged_in
      then not_logged_in s
      else with_fs s
          (λ c. attempt (e.driver.remove_dir path c) s (reply 250 (text "Directory removed.")))

  unfoldable pub handle_dele : Bytes → Session Ctx → Outcome (Session Ctx)
  unfolding reply reply_error
  handle_dele path s =
      if not s.is_logged_in
      then not_logged_in s
      else with_fs s
          (λ c. attempt (e.driver.delete_file path c) s (reply 250 (text "File deleted.")))

  unfoldable pub handle_rnfr : Bytes → Session Ctx → Outcome (Session Ctx)
  unfolding reply
  handle_rnfr path s =
      if not s.is_logged_in
      then not_logged_in s
      else with_fs s (λ c. elim (e.driver.get_file_info path c) [
        | fail x ↦ reply 550 (text "File not found.") s
        | ok _ ↦
            reply 350 (text "Requested file action pending further information.")
              (record s { rename_from = path })
      ])

  unfoldable pub handle_rnto : Bytes → Session Ctx → Outcome (Session Ctx)
  unfolding reply reply_error
  handle_rnto path s =
      if not s.is_logged_in
      then not_logged_in s
      else if is_empty s.rename_from
      then reply 503 (text "Bad sequence of commands. Send RNFR first.") s
      else with_fs s (λ c.
        let r = e.driver.rename s.rename_from path c in
        elim r.1 [
          | some x ↦ do t ← reply_error x (store r.0 s); done (record t { rename_from = [] })
          | none ↦
              reply 250 (text "Requested file action successful, file renamed.")
                (record s { fs = some r.0; rename_from = [] })
        ])
