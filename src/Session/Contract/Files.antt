-- ===== src/Session/Contract/Files.antt =====
-- The handlers of server/session_file.go keep the contract.
use ftp.Base.{
  arith, some, Option-cases, inl, inr, Bytes, ◌≡◌, true, List, [], ◌∷◌, ◌+◌, map, refl, text,
  trim_right, split, lf, is_eol,
}
use ftp.Session.State.{
  Res-cases, Env, FileInfo, ok, Session, Out, reply_line, cont_line, raw_line, finals, write,
  write_all, reply, store,
}
use ftp.Session.File.{
  message_lines, dir_message, handle_pwd, handle_cwd, handle_list, handle_nlst, handle_mkd,
  handle_rmd, handle_dele, handle_rnfr, handle_rnto,
}
use ftp.Session.Contract.{Exists, Inv, Serves}

-- What `write_all` leaves written.
push_all : List Out → List Out → List Out
push_all [] out = out
push_all (o ∷ os) out = push_all os (o ∷ out)

write_all-push_all :
    {Ctx : Type 0} (os : List Out) (s : Session Ctx)
    → write_all os s ≡ record s { out = push_all os s.out }
unfolding push_all
write_all-push_all [] s = refl
write_all-push_all (o ∷ os) s = write_all-push_all os (write o s)

finals-push_all : (os out : List Out) → finals (push_all os out) ≡ finals os + finals out
unfolding push_all
finals-push_all [] out = omega arith
finals-push_all (reply_line c m ∷ os) out =
    ground (arith, finals-push_all os (reply_line c m ∷ out))
finals-push_all (cont_line c m ∷ os) out = finals-push_all os (cont_line c m ∷ out)
finals-push_all (raw_line m ∷ os) out = finals-push_all os (raw_line m ∷ out)

finals-map_cont :
    (f : Bytes → Bytes) (ls : List Bytes) → finals (map (λ l. cont_line 250 (f l)) ls) ≡ 0
finals-map_cont f [] = refl
finals-map_cont f (l ∷ ls) = finals-map_cont f ls

finals-message_lines : (b : Bytes) → finals (message_lines b) ≡ 0
unfolding message_lines
finals-message_lines b = finals-map_cont _ (split lf (trim_right is_eol b))

finals-dir_message : {Ctx : Type 0} (e : Env Ctx) (c : Ctx) → finals (dir_message e c) ≡ 0
unfolding dir_message
finals-dir_message e c = elim (Option-cases (e.driver.message_file c)) [
  | inl h ↦ ground arith
  | inr (b, h) ↦ ground (arith, finals-message_lines b)
]

module _ {Ctx : Type 0} (e : Env Ctx) (s : Session Ctx) (i : Inv s) where
  pub handle_pwd-Serves : Serves e s (handle_pwd e s)
  unfolding handle_pwd
  handle_pwd-Serves = ground arith

  pub handle_list-Serves : (arg : Bytes) → Serves e s (handle_list e arg s)
  unfolding handle_list
  handle_list-Serves arg = ground arith

  pub handle_nlst-Serves : (arg : Bytes) → Serves e s (handle_nlst e arg s)
  unfolding handle_nlst
  handle_nlst-Serves arg = ground arith

  pub handle_mkd-Serves : (arg : Bytes) → Serves e s (handle_mkd e arg s)
  unfolding handle_mkd
  handle_mkd-Serves arg = ground arith

  pub handle_rmd-Serves : (arg : Bytes) → Serves e s (handle_rmd e arg s)
  unfolding handle_rmd
  handle_rmd-Serves arg = ground arith

  pub handle_dele-Serves : (arg : Bytes) → Serves e s (handle_dele e arg s)
  unfolding handle_dele
  handle_dele-Serves arg = ground arith

  rnfr_found :
      (path : Bytes) (c : Ctx) (info : FileInfo)
      → s.fs ≡ some c
      → e.driver.get_file_info path c ≡ ok info
      → Serves e s (handle_rnfr e path s)
  unfolding handle_rnfr
  rnfr_found path c info h found =
      let known : Exists e s path = record {
        context = c;
        info = info;
        current = h;
        found = found;
      } in
      ground arith

  pub handle_rnfr-Serves : (arg : Bytes) → Serves e s (handle_rnfr e arg s)
  unfolding handle_rnfr
  handle_rnfr-Serves arg = elim (Option-cases s.fs) [
    | inl h ↦ ground arith
    | inr (c, h) ↦ elim (Res-cases (e.driver.get_file_info arg c)) [
      | inl (x, f) ↦ ground arith
      | inr (info, f) ↦ rnfr_found arg c info h f
    ]
  ]

  pub handle_rnto-Serves : (arg : Bytes) → Serves e s (handle_rnto e arg s)
  unfolding handle_rnto
  handle_rnto-Serves arg = ground arith

  cwd_reply :
      (c : Ctx) (message : Bytes)
      → s.is_logged_in ≡ true
      → Serves e s (reply 250 message (write_all (dir_message e c) (store c s)))
  unfolding reply
  cwd_reply c message h =
      rw write_all-push_all
        (ground (arith, finals-push_all (dir_message e c) s.out, finals-dir_message e c))

  pub handle_cwd-Serves : (arg : Bytes) → Serves e s (handle_cwd e arg s)
  unfolding handle_cwd
  handle_cwd-Serves arg = elim (Option-cases s.fs) [
    | inl h ↦ ground arith
    | inr (c, h) ↦
        ground
          (arith, cwd_reply (e.driver.change_dir arg c).0 (text "Directory successfully changed."))
  ]
