-- ===== src/Session/Contract/Site.antt =====
-- SITE of server/session_compliance.go, ABOR and PASS: the commands outside the contract.
use ftp.Base.{
  ℕ, true, false, none, some, List, [], ◌∷◌, ◌≡◌, ◌≢◌, ◌⊎◌, refl, arith, Bytes, text, bytes_eq,
  bytes_eq_refl, fields, ◌≤◌, parse_uint, to_upper, ◌^◌, ◌-◌,
}
use ftp.Session.State.{Env, Session, panic, deadlock}
use ftp.Session.Transfer.{handle_abor}
use ftp.Session.Site.{handle_site, site_words, site_chmod}
use ftp.Session.Dispatch.{lookup_in, find_handler, run_handler, dispatch, guarded, handle_command}
use ftp.Session.Contract.{Inv, Serves, ServesOrPanics}
use ftp.Session.Contract.Commands.{command_name, command_arg, IsBlank}

module _ {Ctx : Type 0} (e : Env Ctx) (s : Session Ctx) (i : Inv s) where
  site_chmod-ServesOrPanics : (words : List Bytes) → ServesOrPanics e s (site_chmod e words s)
  unfolding site_chmod
  site_chmod-ServesOrPanics (mode ∷ p ∷ path) = ground arith
  site_chmod-ServesOrPanics _ = ground arith

  site_words-ServesOrPanics : (words : List Bytes) → ServesOrPanics e s (site_words e words s)
  unfolding site_words
  site_words-ServesOrPanics [] = tt
  site_words-ServesOrPanics (w ∷ words) = ground (arith, site_chmod-ServesOrPanics words)

  pub handle_site-ServesOrPanics : (arg : Bytes) → ServesOrPanics e s (handle_site e arg s)
  unfolding handle_site
  handle_site-ServesOrPanics arg = ground (arith, site_words-ServesOrPanics (fields arg))

  module _ (l : s.is_logged_in ≡ true) where
    site_chmod-Serves : (words : List Bytes) → Serves e s (site_chmod e words s)
    unfolding site_chmod
    site_chmod-Serves (mode ∷ p ∷ path) = ground arith
    site_chmod-Serves _ = ground arith

    site_words-Serves : (words : List Bytes) → words ≢ [] → Serves e s (site_words e words s)
    unfolding site_words
    site_words-Serves [] h = absurd (h refl)
    site_words-Serves (w ∷ words) h = ground (arith, site_chmod-Serves words)

    -- After a login, from a regular state, SITE with an empty argument or one that holds more than
    -- white space, of ASCII or beyond, keeps the contract of `handle_command-Serves`: it ends, answers by one final reply, and leaves the
    -- state regular and the login as it was.
    pub handle_site-Serves :
        (arg : Bytes) → (arg ≡ []) ⊎ (fields arg ≢ []) → Serves e s (handle_site e arg s)
    unfolding handle_site
    handle_site-Serves arg h = ground (arith, site_words-Serves (fields arg))

fields-nil : {w : Bytes} {ws : List Bytes} → fields [] ≡ w ∷ ws → ⊥
unfolding fields
fields-nil h = cc

no_fs : {Ctx : Type 0} {s : Session Ctx} → Inv s → s.is_logged_in ≡ false → s.fs ≡ none
no_fs i n = ground arith

module _ {Ctx : Type 0} (e : Env Ctx) (s : Session Ctx) where
  -- SITE with an argument that is not empty and holds no word panics, in every state.
  pub site_blank_panics : (arg : Bytes) → arg ≢ [] → fields arg ≡ [] → handle_site e arg s ≡ panic
  unfolding handle_site site_words
  site_blank_panics arg h f = ground arith

  chmod_not_help : bytes_eq (text "CHMOD") (text "HELP") ≡ false
  unfolding bytes_eq text
  chmod_not_help = refl

  chmod_words_panic :
      (mode p : Bytes) (path : List Bytes) (command : Bytes) (m : ℕ)
      → s.fs ≡ none
      → to_upper command ≡ text "CHMOD"
      → parse_uint 8 (2 ^ 32 - 1) mode ≡ some m
      → m ≤ 511
      → site_words e (command ∷ mode ∷ p ∷ path) s ≡ panic
  unfolding site_words site_chmod
  chmod_words_panic mode p path command m n c v h =
      ground (arith, chmod_not_help, bytes_eq_refl (text "CHMOD"))

  -- Before a login, in a regular state, SITE CHMOD with an octal mode of at most 0777 and a path
  -- panics: `s.fs` is nil and is called.
  pub site_chmod_panics :
      (arg mode p : Bytes) (path : List Bytes) (command : Bytes) (m : ℕ)
      → Inv s
      → s.is_logged_in ≡ false
      → fields arg ≡ command ∷ mode ∷ p ∷ path
      → to_upper command ≡ text "CHMOD"
      → parse_uint 8 (2 ^ 32 - 1) mode ≡ some m
      → m ≤ 511
      → handle_site e arg s ≡ panic
  unfolding handle_site
  site_chmod_panics [] mode p path command m i n f c v h = absurd (fields-nil f)
  site_chmod_panics (a ∷ arg) mode p path command m i n f c v h =
      rw f (chmod_words_panic mode p path command m (no_fs i n) c v h)

  -- `handleABOR` holds the session's mutex when it calls `reply`, which locks it: it never returns.
  pub abor_deadlocks : handle_abor s ≡ deadlock
  unfolding handle_abor
  abor_deadlocks = ground arith

  pub dispatch-abor : (arg : Bytes) → dispatch e (text "ABOR") arg s ≡ handle_abor s
  unfolding dispatch find_handler lookup_in run_handler bytes_eq text
  dispatch-abor arg = refl

  -- In every state, a line whose command is ABOR, is not disabled, and is not blank never returns:
  -- `handleABOR` waits for the mutex that it holds.
  pub abor_line_deadlocks :
      (line : Bytes)
      → command_name line ≡ text "ABOR"
      → ¬ IsBlank line
      → e.config.disabled_commands (text "ABOR") ≡ false
      → handle_command e line s ≡ deadlock
  unfolding handle_command guarded
  abor_line_deadlocks line n nb d =
      ground (arith, dispatch-abor (command_arg line), abor_deadlocks, bytes_eq_refl (text "ABOR"))
