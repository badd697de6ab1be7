-- ===== src/Session/Blank.antt =====
-- `handleSITE` of server/session_compliance.go with an argument of white space only.
use ftp.Base.{
  false, List, [], ◌∷◌, ◌++◌, Bytes, text, bytes_eq, is_eol, All, White, all_of, fields-White,
  space, cr, lf, cut, trim_line, to_upper, ◌≡◌, ◌≢◌, refl, ap, ◌∙◌, arith,
}
use ftp.Session.State.{Env, Session, Outcome, panic, ◌>>=◌}
use ftp.Session.Dispatch.{
  handle_command, guarded, dispatch, parse_line, run_handler, find_handler, lookup_in,
}
use ftp.Session.Site.{handle_site}
use ftp.Session.Contract.Site.{site_blank_panics}
use ftp.Session.Worker.{Event, line, run, session_step}

-- SITE, a space and blanks.
abbrev pub blank_site : List Bytes → Bytes
blank_site rs = text "SITE" ++ space ∷ all_of rs

module _ {Ctx : Type 0} (e : Env Ctx) (s : Session Ctx) where
  parse_line-site : (arg : Bytes) → parse_line (text "SITE" ++ space ∷ arg) ≡ (text "SITE", arg)
  unfolding parse_line cut text to_upper
  parse_line-site arg = refl

  site-IsText :
      (arg : Bytes)
      → All (λ c. is_eol c ≡ false) arg
      → All (λ c. is_eol c ≡ false) (text "SITE" ++ space ∷ arg)
  unfolding text
  site-IsText arg h = (refl, (refl, (refl, (refl, (refl, h)))))

  site_dispatched :
      (arg : Bytes)
      → s.busy ≡ false
      → e.config.disabled_commands (text "SITE") ≡ false
      → guarded e (text "SITE") arg s ≡ handle_site e arg s
  unfolding guarded dispatch find_handler lookup_in run_handler bytes_eq text
  site_dispatched arg b d = ground (arith, b, d)

  handle_command-site :
      (arg : Bytes)
      → All (λ c. is_eol c ≡ false) arg
      → handle_command e ((text "SITE" ++ space ∷ arg) ++ cr ∷ lf ∷ []) s
        ≡ guarded e (text "SITE") arg s
  unfolding handle_command text
  handle_command-site arg h =
      rw
        (
          handle_command,
          trim_line (text "SITE" ++ space ∷ arg) (site-IsText arg h),
          parse_line-site arg,
        )
        refl

  -- A session with no transfer, in any other state, whose configuration allows SITE, takes a line of
  -- SITE, a space and one or more white space characters, of ASCII or beyond, that hold no CR or LF.
  -- Whatever follows, the process panics.
  pub blank_site_panics :
      (rs : List Bytes) (later : List (Event Ctx))
      → All White rs
      → all_of rs ≢ []
      → All (λ c. is_eol c ≡ false) (all_of rs)
      → s.busy ≡ false
      → e.config.disabled_commands (text "SITE") ≡ false
      → run (line e (blank_site rs ++ cr ∷ lf ∷ []) ∷ later) s ≡ panic
  unfolding run session_step
  blank_site_panics rs later w n t b d =
      ap (λ (o : Outcome (Session Ctx)). o >>= λ u. run later u)
        (handle_command-site (all_of rs) t
          ∙ site_dispatched (all_of rs) b d
          ∙ site_blank_panics e s (all_of rs) n (fields-White rs w))
