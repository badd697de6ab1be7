-- ===== src/Session/Keep/Files.antt =====
-- The handlers of server/session_file.go keep what the driver keeps.
use ftp.Base.{arith, Bytes}
use ftp.Session.State.{Env, Session, store}
use ftp.Session.File.{
  handle_mkd, handle_pwd, handle_cwd, handle_list, handle_nlst, handle_rmd, handle_dele,
  handle_rnfr, handle_rnto, dir_message,
}
use ftp.Session.Keep.{Preserves, Holds, Keeps, with_context, write_all-fs}

module _ {Ctx : Type 0} (e : Env Ctx) (P : Ctx → Type 0) (p : Preserves e.driver P)
    (s : Session Ctx) (h : Holds P s.fs) where
  pub handle_pwd-Keeps : Keeps P (handle_pwd e s)
  unfolding handle_pwd
  handle_pwd-Keeps = ground arith

  pub handle_cwd-Keeps : (path : Bytes) → Keeps P (handle_cwd e path s)
  unfolding handle_cwd
  handle_cwd-Keeps path =
      with_context P s _ h (λ n. ground arith)
        (λ c e1 pc. ground (
          arith,
          p.change_dir path c pc,
          write_all-fs (dir_message e (e.driver.change_dir path c).0)
              (store (e.driver.change_dir path c).0 s),
        ))

  pub handle_list-Keeps : (path : Bytes) → Keeps P (handle_list e path s)
  unfolding handle_list
  handle_list-Keeps path = ground arith

  pub handle_nlst-Keeps : (path : Bytes) → Keeps P (handle_nlst e path s)
  unfolding handle_nlst
  handle_nlst-Keeps path = ground arith

  pub handle_mkd-Keeps : (path : Bytes) → Keeps P (handle_mkd e path s)
  unfolding handle_mkd
  handle_mkd-Keeps path =
      with_context P s _ h (λ n. ground arith) (λ c e1 pc. ground (arith, p.make_dir path c pc))

  pub handle_rmd-Keeps : (path : Bytes) → Keeps P (handle_rmd e path s)
  unfolding handle_rmd
  handle_rmd-Keeps path =
      with_context P s _ h (λ n. ground arith) (λ c e1 pc. ground (arith, p.remove_dir path c pc))

  pub handle_dele-Keeps : (path : Bytes) → Keeps P (handle_dele e path s)
  unfolding handle_dele
  handle_dele-Keeps path =
      with_context P s _ h (λ n. ground arith) (λ c e1 pc. ground (arith, p.delete_file path c pc))

  pub handle_rnfr-Keeps : (path : Bytes) → Keeps P (handle_rnfr e path s)
  unfolding handle_rnfr
  handle_rnfr-Keeps path = ground arith

  pub handle_rnto-Keeps : (path : Bytes) → Keeps P (handle_rnto e path s)
  unfolding handle_rnto
  handle_rnto-Keeps path =
      with_context P s _ h (λ n. ground arith)
        (λ c e1 pc. ground (arith, p.rename s.rename_from path c pc))
