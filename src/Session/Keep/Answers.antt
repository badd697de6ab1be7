-- ===== src/Session/Keep/Answers.antt =====
-- The other handlers of server/session*.go keep what the driver keeps.
use ftp.Base.{
  List, [], ◌∷◌, cut, space, fields, join, parse_uint, ◌^◌, ◌-◌, Option-cases, inl, inr, arith,
  Bytes, text,
}
use ftp.Session.State.{Env, Session}
use ftp.Session.Info.{
  handle_size, handle_mdtm, handle_feat, handle_opts, handle_mlsd, handle_mlst, handle_user,
  handle_auth, handle_prot, handle_pbsz, handle_host, handle_hash, handle_mfmt,
}
use ftp.Session.Site.{
  handle_acct, handle_mode, handle_stru, handle_stat, handle_help, handle_syst, handle_site,
  site_chmod, site_words,
}
use ftp.Session.Keep.{Preserves, Holds, Keeps, with_context}

module _ {Ctx : Type 0} (e : Env Ctx) (P : Ctx → Type 0) (p : Preserves e.driver P)
    (s : Session Ctx) (h : Holds P s.fs) where
  pub handle_size-Keeps : (path : Bytes) → Keeps P (handle_size e path s)
  unfolding handle_size
  handle_size-Keeps path = ground arith

  pub handle_mdtm-Keeps : (path : Bytes) → Keeps P (handle_mdtm e path s)
  unfolding handle_mdtm
  handle_mdtm-Keeps path = ground arith

  pub handle_opts-Keeps : (path : Bytes) → Keeps P (handle_opts e path s)
  unfolding handle_opts
  handle_opts-Keeps path = ground arith

  pub handle_mlsd-Keeps : (path : Bytes) → Keeps P (handle_mlsd e path s)
  unfolding handle_mlsd
  handle_mlsd-Keeps path = ground arith

  pub handle_mlst-Keeps : (path : Bytes) → Keeps P (handle_mlst e path s)
  unfolding handle_mlst
  handle_mlst-Keeps path = ground arith

  pub handle_user-Keeps : (path : Bytes) → Keeps P (handle_user e path s)
  unfolding handle_user
  handle_user-Keeps path = ground arith

  pub handle_auth-Keeps : (path : Bytes) → Keeps P (handle_auth e path s)
  unfolding handle_auth
  handle_auth-Keeps path = ground arith

  pub handle_prot-Keeps : (path : Bytes) → Keeps P (handle_prot e path s)
  unfolding handle_prot
  handle_prot-Keeps path = ground arith

  pub handle_host-Keeps : (path : Bytes) → Keeps P (handle_host e path s)
  unfolding handle_host
  handle_host-Keeps path = ground arith

  pub handle_hash-Keeps : (path : Bytes) → Keeps P (handle_hash e path s)
  unfolding handle_hash
  handle_hash-Keeps path = ground arith

  pub handle_feat-Keeps : Keeps P (handle_feat e s)
  unfolding handle_feat
  handle_feat-Keeps = ground arith

  pub handle_pbsz-Keeps : Keeps P (handle_pbsz e s)
  unfolding handle_pbsz
  handle_pbsz-Keeps = ground arith

  pub handle_mfmt-Keeps : (path : Bytes) → Keeps P (handle_mfmt e path s)
  unfolding handle_mfmt
  handle_mfmt-Keeps path = elim (Option-cases (cut space path)) [
    | inl n ↦ ground arith
    | inr ((time, name), f) ↦
        with_context P s _ h (λ n. ground arith)
          (λ c e1 pc. ground (arith, p.set_time name time c pc))
  ]

  pub handle_mode-Keeps : (path : Bytes) → Keeps P (handle_mode path s)
  unfolding handle_mode
  handle_mode-Keeps path = ground arith

  pub handle_stru-Keeps : (path : Bytes) → Keeps P (handle_stru path s)
  unfolding handle_stru
  handle_stru-Keeps path = ground arith

  pub handle_stat-Keeps : (path : Bytes) → Keeps P (handle_stat path s)
  unfolding handle_stat
  handle_stat-Keeps path = ground arith

  pub handle_help-Keeps : (path : Bytes) → Keeps P (handle_help path s)
  unfolding handle_help
  handle_help-Keeps path = ground arith

  pub handle_acct-Keeps : Keeps P (handle_acct s)
  unfolding handle_acct
  handle_acct-Keeps = ground arith

  pub handle_syst-Keeps : Keeps P (handle_syst e s)
  unfolding handle_syst
  handle_syst-Keeps = ground arith

  site_chmod-Keeps : (words : List Bytes) → Keeps P (site_chmod e words s)
  unfolding site_chmod
  site_chmod-Keeps (mode ∷ name ∷ names) = elim (Option-cases (parse_uint 8 (2 ^ 32 - 1) mode)) [
    | inl n ↦ ground arith
    | inr (m, f) ↦
        with_context P s _ h (λ n. ground arith)
          (λ c e1 pc. ground (arith, p.chmod (join (text " ") (name ∷ names)) m c pc))
  ]
  site_chmod-Keeps _ = ground arith

  site_words-Keeps : (words : List Bytes) → Keeps P (site_words e words s)
  unfolding site_words
  site_words-Keeps [] = tt
  site_words-Keeps (w ∷ words) = ground (arith, site_chmod-Keeps words)

  pub handle_site-Keeps : (arg : Bytes) → Keeps P (handle_site e arg s)
  unfolding handle_site
  handle_site-Keeps arg = ground (arith, site_words-Keeps (fields arg))
