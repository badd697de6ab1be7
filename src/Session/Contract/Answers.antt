-- ===== src/Session/Contract/Answers.antt =====
-- The handlers of server/session_info.go, _access.go, _security.go, _extensions.go and
-- _compliance.go keep the contract.
use ftp.Base.{arith, Option-cases, inl, inr, Bytes, ◌≡◌, true, List, some, split, space}
use ftp.Session.State.{Env, Session}
use ftp.Session.Info.{
  is_hash_name, opts_hash, handle_size, handle_mdtm, handle_feat, handle_opts, handle_mlsd,
  handle_mlst, handle_user, handle_auth, handle_prot, handle_pbsz, handle_host, handle_hash,
  handle_mfmt,
}
use ftp.Session.Site.{handle_acct, handle_mode, handle_stru, handle_stat, handle_help, handle_syst}
use ftp.Session.Contract.{Inv, Serves}

is_hash_name-opts_hash :
    (words : List Bytes) {algo : Bytes} → opts_hash words ≡ some algo → is_hash_name algo ≡ true
unfolding opts_hash
is_hash_name-opts_hash words h = ground arith

module _ {Ctx : Type 0} (e : Env Ctx) (s : Session Ctx) (i : Inv s) where
  pub handle_size-Serves : (arg : Bytes) → Serves e s (handle_size e arg s)
  unfolding handle_size
  handle_size-Serves arg = ground arith

  pub handle_mdtm-Serves : (arg : Bytes) → Serves e s (handle_mdtm e arg s)
  unfolding handle_mdtm
  handle_mdtm-Serves arg = ground arith

  pub handle_feat-Serves : Serves e s (handle_feat e s)
  unfolding handle_feat
  handle_feat-Serves = ground arith

  pub handle_opts-Serves : (arg : Bytes) → Serves e s (handle_opts e arg s)
  unfolding handle_opts
  handle_opts-Serves arg = elim (Option-cases (opts_hash (split space arg))) [
    | inl h ↦ ground arith
    | inr (algo, h) ↦ ground (arith, is_hash_name-opts_hash (split space arg) h)
  ]

  pub handle_mlsd-Serves : (arg : Bytes) → Serves e s (handle_mlsd e arg s)
  unfolding handle_mlsd
  handle_mlsd-Serves arg = ground arith

  pub handle_mlst-Serves : (arg : Bytes) → Serves e s (handle_mlst e arg s)
  unfolding handle_mlst
  handle_mlst-Serves arg = ground arith

  pub handle_user-Serves : (arg : Bytes) → Serves e s (handle_user e arg s)
  unfolding handle_user
  handle_user-Serves arg = ground arith

  pub handle_auth-Serves : (arg : Bytes) → Serves e s (handle_auth e arg s)
  unfolding handle_auth
  handle_auth-Serves arg = ground arith

  pub handle_prot-Serves : (arg : Bytes) → Serves e s (handle_prot e arg s)
  unfolding handle_prot
  handle_prot-Serves arg = ground arith

  pub handle_pbsz-Serves : Serves e s (handle_pbsz e s)
  unfolding handle_pbsz
  handle_pbsz-Serves = ground arith

  pub handle_host-Serves : (arg : Bytes) → Serves e s (handle_host e arg s)
  unfolding handle_host
  handle_host-Serves arg = ground arith

  pub handle_hash-Serves : (arg : Bytes) → Serves e s (handle_hash e arg s)
  unfolding handle_hash
  handle_hash-Serves arg = ground arith

  pub handle_mfmt-Serves : (arg : Bytes) → Serves e s (handle_mfmt e arg s)
  unfolding handle_mfmt
  handle_mfmt-Serves arg = ground arith

  pub handle_syst-Serves : Serves e s (handle_syst e s)
  unfolding handle_syst
  handle_syst-Serves = ground arith

  pub handle_acct-Serves : Serves e s (handle_acct s)
  unfolding handle_acct
  handle_acct-Serves = ground arith

  pub handle_mode-Serves : (arg : Bytes) → Serves e s (handle_mode arg s)
  unfolding handle_mode
  handle_mode-Serves arg = ground arith

  pub handle_stru-Serves : (arg : Bytes) → Serves e s (handle_stru arg s)
  unfolding handle_stru
  handle_stru-Serves arg = ground arith

  pub handle_stat-Serves : (arg : Bytes) → Serves e s (handle_stat arg s)
  unfolding handle_stat
  handle_stat-Serves arg = ground arith

  pub handle_help-Serves : (arg : Bytes) → Serves e s (handle_help arg s)
  unfolding handle_help
  handle_help-Serves arg = ground arith
