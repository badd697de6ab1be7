-- ===== src/Client/Served/Follow.antt =====
-- A client's edits (directory.go) on a session (server/session_file.go), against the driver's.
use ftp.Base.{
  ◌≤◌, false, Option, some, [], ◌∷◌, Bytes, text, none_of, contains_byte, to_upper, ◌≡◌, refl, ap,
  sym, ◌∙◌, arith, int_eq,
}
use ftp.Session.State.{
  Env, Session, reply_line, write, store, FsError, Res, ok, fail, not_exist, FileInfo,
}
use ftp.Client.Reply.{Response}
use ftp.Client.Printed.{IsText}
use ftp.Client.Wire.{Wire, Conn, Result, ok, expect_2xx_of, send_command, ◌>>=◌, pure, require}
use ftp.Client.Commands.{delete, remove_dir, rename}
use ftp.Client.Served.{Peer, live, served_by}
use ftp.Client.Served.Sending.{IsArg, response, send_command-served}
use ftp.Client.Served.Edits.{
  Edit, deletion, removal, renaming, IsEdit, perform, apply, IsReportable, Reports, Stands, Follows,
  none_of-IsText, made_of, made_of-Reports, after, expect_2xx_of-answer, edit-answer, answer-fits,
  answer-IsText,
}
use ftp.Client.Served.Steps.{
  deleted, removed, renamed, IsName-of, served-dele, served-rmd, served-rnfr, served-rnto,
  found_code, found_text, found,
}
use mathlib.Core.Path.{subst}

module _ {Ctx : Type 0} (e : Env Ctx) (w : Wire (Peer Ctx)) where
  -- What an edit comes to, from what the driver makes of it and the connection and the result that it gives.
  subst-Follows :
      (x : Edit) (ctx : Ctx) (c : Conn (Peer Ctx)) (a : Ctx × Option FsError)
      → (p : Conn (Peer Ctx) × Result (Unit {0})) → apply e.driver x ctx ≡ a
      → perform (served_by e w) x c ≡ p
      → Stands a.0 p.0
      → Reports a.1 p.1
      → Follows e w x ctx c
  subst-Follows x ctx c a p g h s r =
      subst (λ q. Stands (apply e.driver x ctx).0 q.0 × Reports (apply e.driver x ctx).1 q.1)
        (sym h) (subst (λ b. Stands b.0 p.0 × Reports b.1 p.1) (sym g) (s, r))

  Stands-after :
      (c : Conn (Peer Ctx)) (ctx other : Ctx) (m : Bytes) (o : Option FsError)
      → Stands ctx c
      → Stands other (after e w c (store other c.peer.session) m o)
  Stands-after c ctx other m o s = record {
    drained = refl;
    listening = refl;
    logged_in = s.logged_in;
    opened = refl;
    idle = s.idle;
    unlocked = s.unlocked;
  }

  deletion-Follows :
      (path : Bytes) (ctx : Ctx) (c : Conn (Peer Ctx))
      → IsArg path
      → IsReportable (apply e.driver (deletion path) ctx).1
      → ((name : Bytes) → e.config.disabled_commands name ≡ false)
      → Stands ctx c
      → Follows e w (deletion path) ctx c
  unfolding delete text none_of contains_byte to_upper
  deletion-Follows path ctx c h r d s =
      subst-Follows (deletion path) ctx c _ _ refl
        (edit-answer e w c ctx (text "DELE") path deleted (e.driver.delete_file path ctx)
          (IsName-of (text "DELE") refl refl refl (omega arith) refl) h
          (none_of-IsText deleted refl) r (d (text "DELE")) s
          (served-dele e w path c.peer.session ctx s.logged_in s.opened s.unlocked))
        (Stands-after c ctx (e.driver.delete_file path ctx).0 deleted
          (e.driver.delete_file path ctx).1 s)
        (made_of-Reports e w (text "DELE") deleted (e.driver.delete_file path ctx).1)

  removal-Follows :
      (path : Bytes) (ctx : Ctx) (c : Conn (Peer Ctx))
      → IsArg path
      → IsReportable (apply e.driver (removal path) ctx).1
      → ((name : Bytes) → e.config.disabled_commands name ≡ false)
      → Stands ctx c
      → Follows e w (removal path) ctx c
  unfolding remove_dir text none_of contains_byte to_upper
  removal-Follows path ctx c h r d s =
      subst-Follows (removal path) ctx c _ _ refl
        (edit-answer e w c ctx (text "RMD") path removed (e.driver.remove_dir path ctx)
          (IsName-of (text "RMD") refl refl refl (omega arith) refl) h (none_of-IsText removed refl)
          r (d (text "RMD")) s
          (served-rmd e w path c.peer.session ctx s.logged_in s.opened s.unlocked))
        (Stands-after c ctx (e.driver.remove_dir path ctx).0 removed
          (e.driver.remove_dir path ctx).1 s)
        (made_of-Reports e w (text "RMD") removed (e.driver.remove_dir path ctx).1)

  -- The connection after RNFR.
  abbrev asked : Bytes → Res FileInfo → Conn (Peer Ctx) → Conn (Peer Ctx)
  asked from i c = record {
    client = c.client;
    input = [];
    peer = live (write (reply_line (found_code i) (found_text i)) (found from i c.peer.session));
  }

  found-fits : (i : Res FileInfo) → (100 ≤ found_code i) × (found_code i ≤ 999)
  found-fits (fail x) = (omega arith, omega arith)
  found-fits (ok f) = (omega arith, omega arith)

  found-IsText : (i : Res FileInfo) → IsText (found_text i)
  unfolding text none_of
  found-IsText (fail x) = none_of-IsText (found_text (fail x)) refl
  found-IsText (ok f) = none_of-IsText (found_text (ok f)) refl

  found-out : (from : Bytes) (i : Res FileInfo) (s : Session Ctx) → (found from i s).out ≡ s.out
  found-out from (fail x) s = refl
  found-out from (ok f) s = refl

  sent-rnfr :
      (from : Bytes) (ctx : Ctx) (c : Conn (Peer Ctx))
      → IsArg from
      → e.config.disabled_commands (text "RNFR") ≡ false
      → Stands ctx c
      → let i = e.driver.get_file_info from ctx in
        send_command (served_by e w) (text "RNFR") (from ∷ []) c
        ≡ (asked from i c, ok (response (found_code i) (found_text i)))
  unfolding text none_of contains_byte to_upper
  sent-rnfr from ctx c h d s =
      send_command-served e w c (text "RNFR") from
        (IsName-of (text "RNFR") refl refl refl (omega arith) refl) h s.drained s.listening s.idle d
        _ _ (found from (e.driver.get_file_info from ctx) c.peer.session)
        (found-fits (e.driver.get_file_info from ctx)).0
        (found-fits (e.driver.get_file_info from ctx)).1
        (found-IsText (e.driver.get_file_info from ctx))
        (served-rnfr e w from c.peer.session ctx s.logged_in s.opened s.unlocked)
        (found-out from (e.driver.get_file_info from ctx) c.peer.session)

  -- What `Rename` does with the response to RNFR.
  abbrev go_on :
      Bytes
      → Conn (Peer Ctx)
      → Conn (Peer Ctx) × Result Response
      → Conn (Peer Ctx) × Result (Unit {0})
  go_on to c p =
      ((λ (_ : Conn (Peer Ctx)). p) >>= λ r. require (served_by e w) 350 (text "RNFR") r >>= λ _.
      (expect_2xx_of (served_by e w) (text "RNTO") (to ∷ []) >>= λ _. pure tt))
        c

  rename-sent :
      (from to : Bytes) (c : Conn (Peer Ctx)) (p : Conn (Peer Ctx) × Result Response)
      → send_command (served_by e w) (text "RNFR") (from ∷ []) c ≡ p
      → rename (served_by e w) from to c ≡ go_on to c p
  unfolding rename
  rename-sent from to c p h = ap (go_on to c) h

  -- The session once the driver has renamed a file, or has not.
  abbrev renamed_in : Ctx → Session Ctx → Session Ctx
  renamed_in other s = record s { fs = some other; rename_from = [] }

  sent-rnto :
      (from to : Bytes) (f : FileInfo) (ctx : Ctx) (c : Conn (Peer Ctx))
      → IsEdit (renaming from to)
      → IsReportable (e.driver.rename from to ctx).1
      → e.config.disabled_commands (text "RNTO") ≡ false
      → Stands ctx c
      → let r = e.driver.rename from to ctx in
        let d = asked from (ok f) c in
        (expect_2xx_of (served_by e w) (text "RNTO") (to ∷ []) >>= λ _. pure tt) d ≡ (
          after e w d (renamed_in r.0 d.peer.session) renamed r.1,
          made_of e w (text "RNTO") renamed r.1,
        )
  unfolding text none_of contains_byte to_upper
  sent-rnto from to f ctx c h r d s =
      expect_2xx_of-answer e w (asked from (ok f) c) (text "RNTO") to renamed
        (e.driver.rename from to ctx).1
        (renamed_in (e.driver.rename from to ctx).0 (asked from (ok f) c).peer.session)
        (send_command-served e w (asked from (ok f) c) (text "RNTO") to
          (IsName-of (text "RNTO") refl refl refl (omega arith) refl) h.1 refl refl s.idle d _ _
          (renamed_in (e.driver.rename from to ctx).0 (asked from (ok f) c).peer.session)
          (answer-fits (e.driver.rename from to ctx).1).0
          (answer-fits (e.driver.rename from to ctx).1).1
          (answer-IsText renamed (e.driver.rename from to ctx).1 (none_of-IsText renamed refl) r)
          (served-rnto e w from to (asked from (ok f) c).peer.session ctx refl h.2 s.logged_in
            s.opened s.unlocked)
          refl)

  -- A renaming, by what the driver knows of the file.
  abbrev renaming_by : Bytes → Bytes → Ctx → Res FileInfo → Ctx × Option FsError
  renaming_by from to ctx i = elim i [
    | fail _ ↦ (ctx, some not_exist)
    | ok _ ↦ e.driver.rename from to ctx
  ]

  renaming-by :
      (from to : Bytes) (ctx : Ctx) (c : Conn (Peer Ctx)) (i : Res FileInfo)
      → e.driver.get_file_info from ctx ≡ i
      → IsEdit (renaming from to)
      → IsReportable (renaming_by from to ctx i).1
      → ((name : Bytes) → e.config.disabled_commands name ≡ false)
      → Stands ctx c
      → Follows e w (renaming from to) ctx c
  unfolding int_eq
  renaming-by from to ctx c (fail x) g h r d s =
      subst-Follows (renaming from to) ctx c (ctx, some not_exist) _
        (ap (renaming_by from to ctx) g)
        (rename-sent from to c _ (sent-rnfr from ctx c h.0 (d (text "RNFR")) s)
          ∙ ap (λ i. go_on to c (asked from i c, ok (response (found_code i) (found_text i)))) g)
        (record {
          drained = refl;
          listening = refl;
          logged_in = s.logged_in;
          opened = s.opened;
          idle = s.idle;
          unlocked = s.unlocked;
        })
        (text "RNFR", refl)
  renaming-by from to ctx c (ok f) g h r d s =
      subst-Follows (renaming from to) ctx c (e.driver.rename from to ctx) _
        (ap (renaming_by from to ctx) g)
        (rename-sent from to c _ (sent-rnfr from ctx c h.0 (d (text "RNFR")) s)
          ∙ ap (λ i. go_on to c (asked from i c, ok (response (found_code i) (found_text i)))) g
          ∙ sent-rnto from to f ctx c h r (d (text "RNTO")) s)
        (record {
          drained = refl;
          listening = refl;
          logged_in = s.logged_in;
          opened = refl;
          idle = s.idle;
          unlocked = s.unlocked;
        })
        (made_of-Reports e w (text "RNTO") renamed (e.driver.rename from to ctx).1)

  -- Of one edit, on a server whose configuration disables no command and whose driver's error can be
  -- printed in one line.
  pub perform-Follows :
      (x : Edit) (ctx : Ctx) (c : Conn (Peer Ctx))
      → IsEdit x
      → IsReportable (apply e.driver x ctx).1
      → ((name : Bytes) → e.config.disabled_commands name ≡ false)
      → Stands ctx c
      → Follows e w x ctx c
  perform-Follows (deletion path) ctx c h r d s = deletion-Follows path ctx c h r d s
  perform-Follows (removal path) ctx c h r d s = removal-Follows path ctx c h r d s
  perform-Follows (renaming from to) ctx c h r d s =
      renaming-by from to ctx c (e.driver.get_file_info from ctx) refl h r d s
