-- ===== src/Session/Tests/Commands.antt =====
-- Single commands of server/session*.go on the small driver.
use ftp.Base.{
  List, Bytes, White, all_of, All, ◌++◌, cr, lf, parse_uint, fields, ℕ, true, false, some, [], ◌∷◌,
  ◌≡◌, ◌≢◌, inr, refl, arith, text, trim_right, bytes_eq, cut, to_upper, ◌^◌, ◌-◌,
}
use ftp.Session.State.{
  ◌>>=◌, Session, done, panic, deadlock, copying, retr, new_session, reply_line,
}
use ftp.Session.Contract.{Inv, Serves}
use ftp.Session.Contract.Commands.{handle_command-Serves, command_name, command_arg, IsBlank}
use ftp.Session.Contract.Lines.{handle_command-Handled, HandledIfDone}
use ftp.Session.Run.{new_session-Inv}
use ftp.Session.Blank.{blank_site, blank_site_panics}
use ftp.Session.Gate.{late_unwind_aborts}
use ftp.Session.Site.{handle_site}
use ftp.Session.Contract.Site.{handle_site-Serves, site_chmod_panics, abor_line_deadlocks}
use ftp.Session.Info.{is_hash_name}
use ftp.Session.Transfer.{start_transfer}
use ftp.Session.Worker.{contains, worker_step, run, line}
use ftp.Session.Dispatch.{handle_command, parse_line}
use ftp.Session.Tests.{
  env, config, entered, entered-Inv, pwd_not-IsBlank, pwd_pass, pwd_abor, pwd_site,
}

handle_command-Serves_example : Serves env entered (handle_command env (text "PWD") entered)
handle_command-Serves_example =
    handle_command-Serves env entered entered-Inv (text "PWD") pwd_not-IsBlank pwd_pass pwd_abor
      pwd_site

site_not-IsBlank : ¬ IsBlank (text "SITE CHMOD 644 f")
unfolding text trim_right
site_not-IsBlank h = ground arith

handle_command-Handled_example :
    HandledIfDone env 1
      (command_name (text "SITE CHMOD 644 f"))
      (command_arg (text "SITE CHMOD 644 f"))
      entered
      (handle_command env (text "SITE CHMOD 644 f") entered)
handle_command-Handled_example =
    handle_command-Handled env entered entered-Inv (text "SITE CHMOD 644 f") site_not-IsBlank

chmod_has_words : fields (text "CHMOD 644 f") ≢ []
unfolding fields text
chmod_has_words h = ground arith

chmod_words : fields (text "CHMOD 644 f") ≡ text "CHMOD" ∷ text "644" ∷ text "f" ∷ []
unfolding fields text
chmod_words = refl

chmod_upper : to_upper (text "CHMOD") ≡ text "CHMOD"
unfolding to_upper text
chmod_upper = refl

mode_644 : parse_uint 8 (2 ^ 32 - 1) (text "644") ≡ some 420
unfolding parse_uint text
mode_644 = refl

logged_out : (new_session {Ctx = ℕ} false).is_logged_in ≡ false
unfolding new_session
logged_out = refl

logged_in : entered.is_logged_in ≡ true
unfolding entered
logged_in = refl

not_busy : entered.busy ≡ false
unfolding entered new_session
not_busy = refl

handle_site-Serves_example : Serves env entered (handle_site env (text "CHMOD 644 f") entered)
handle_site-Serves_example =
    handle_site-Serves env entered entered-Inv logged_in (text "CHMOD 644 f") (inr chmod_has_words)

site_chmod_panics_example :
    handle_site env (text "CHMOD 644 f") (new_session {Ctx = ℕ} false) ≡ panic
site_chmod_panics_example =
    site_chmod_panics env (new_session false) (text "CHMOD 644 f") (text "644") (text "f") []
      (text "CHMOD") 420 (new_session-Inv false) logged_out chmod_words chmod_upper mode_644
      (omega arith)

-- A tab, then U+00A0 in UTF-8.
abbrev tab_and_no_break : List Bytes
tab_and_no_break = (9 ∷ []) ∷ (194 ∷ 160 ∷ []) ∷ []

blanks_White : All White tab_and_no_break
blanks_White = (White.one_byte 9 refl, (White.two_bytes 194 160 refl, tt))

blanks_not_empty : all_of tab_and_no_break ≢ []
blanks_not_empty h = ground arith

site_enabled : config.disabled_commands (text "SITE") ≡ false
unfolding text bytes_eq
site_enabled = refl

blank_site_panics_example :
    run (line env (blank_site tab_and_no_break ++ cr ∷ lf ∷ []) ∷ []) entered ≡ panic
blank_site_panics_example =
    blank_site_panics env entered tab_and_no_break [] blanks_White blanks_not_empty
      (refl, (refl, (refl, tt))) not_busy site_enabled

abor_name : command_name (text "ABOR") ≡ text "ABOR"
unfolding text trim_right parse_line cut to_upper
abor_name = refl

abor_not-IsBlank : ¬ IsBlank (text "ABOR")
unfolding text trim_right
abor_not-IsBlank h = ground arith

abor_enabled : config.disabled_commands (text "ABOR") ≡ false
unfolding text bytes_eq
abor_enabled = refl

abor_line_deadlocks_example : handle_command env (text "ABOR") entered ≡ deadlock
abor_line_deadlocks_example =
    abor_line_deadlocks env entered (text "ABOR") abor_name abor_not-IsBlank abor_enabled

-- A download is running.
abbrev busy : Session ℕ
unfolding new_session
busy = record (new_session false) {
  fs = some 0;
  is_logged_in = true;
  busy = true;
  transfer_ctx = some 0;
  contexts = 1;
  workers = record { command = retr; phase = copying; ctx = 0 } ∷ [];
}

busy-Inv : Inv busy
unfolding busy is_hash_name bytes_eq text
busy-Inv = ground arith

busy_worker : busy.workers ≡ record { command = retr; phase = copying; ctx = 0 } ∷ []
unfolding busy
busy_worker = refl

nothing_cancelled : contains 0 busy.cancelled ≡ false
unfolding busy
nothing_cancelled = refl

late_unwind_aborts_example :
    (t : Session ℕ) × ((do
      a ← worker_step 0 false busy
      b ← worker_step 0 false a
      c ← start_transfer retr b
      d ← worker_step 1 false c
      worker_step 0 false d)
      ≡ done t)
    × (t.out
        ≡ reply_line 426 (text "Transfer aborted.")
          ∷ reply_line 226 (text "Transfer complete.")
          ∷ busy.out)
    × (t.busy ≡ false)
late_unwind_aborts_example =
    late_unwind_aborts busy _ [] retr busy-Inv busy_worker refl nothing_cancelled refl
