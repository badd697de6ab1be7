-- ===== src/Client/Served/Edits.antt =====
-- The client's edits of files (directory.go), carried out by the handlers of a session
-- (server/session_file.go) on its driver.
use ftp.Base.{
  ℕ, ◌≤◌, true, false, not, Option, none, some, [], ◌∷◌, ◌++◌, Bytes, text, is_empty, if◌then◌else◌,
  ◌≡◌, refl, ap, ◌∙◌, arith, none_of, none_of-All, is_eol,
}
use ftp.Session.State.{
  Env, ClientContext, Session, Outcome, done, reply, reply_error, reply_line, write, store, attempt,
  with_fs, not_logged_in, deadlock, panic, FsError, ok, fail, not_exist, permission, exist, other,
}
use ftp.Session.Dispatch.{dispatch}
use ftp.Client.Reply.{Response, is_2xx, expect_2xx}
use ftp.Client.Printed.{IsText}
use ftp.Client.Wire.{
  Wire, Conn, M, Result, ok, err, protocol, expect_2xx_of, send_command, ◌>>=◌, pure, checked,
}
use ftp.Client.Commands.{delete, remove_dir, rename}
use ftp.Client.Served.{Peer, live, served_by}
use ftp.Client.Served.Sending.{IsName, IsArg, response, send_command-served}

-- What a client can ask for.
pub data Edit : Type 0 where
  deletion removal : Bytes → Edit
  renaming : Bytes → Bytes → Edit

-- Its paths reach the session as they are, and a renamed file has a path that is not empty.
abbrev pub IsEdit : Edit → Type 0
IsEdit (deletion path) = IsArg path
IsEdit (removal path) = IsArg path
IsEdit (renaming from to) = IsArg from × IsArg to × (is_empty from ≡ false)

-- An edit, as the client carries it out.
abbrev pub perform : {S : Type 0} → Wire S → Edit → M S (Unit {0})
perform w (deletion path) = delete w path
perform w (removal path) = remove_dir w path
perform w (renaming from to) = rename w from to

-- An edit on the driver's side: a file that is renamed has to be there.
abbrev pub apply : {Ctx : Type 0} → ClientContext Ctx → Edit → Ctx → Ctx × Option FsError
apply v (deletion path) ctx = v.delete_file path ctx
apply v (removal path) ctx = v.remove_dir path ctx
apply v (renaming from to) ctx = elim (v.get_file_info from ctx) [
  | fail _ ↦ (ctx, some not_exist)
  | ok _ ↦ v.rename from to ctx
]

-- The message of the reply to an error.
abbrev pub failure_text : FsError → Bytes
failure_text not_exist = text "File not found."
failure_text permission = text "Permission denied."
failure_text exist = text "File already exists."
failure_text (other message) = text "Action failed: " ++ message

abbrev pub IsReportable : Option FsError → Type 0
IsReportable none = Unit
IsReportable (some x) = IsText (failure_text x)

-- The client returns the driver's error as the reply to a command, and no other error.
abbrev pub Reports : Option FsError → Result (Unit {0}) → Type 0
Reports none r = r ≡ ok tt
Reports (some x) r =
    (command : Bytes) × (r ≡ err (protocol command (response 550 (failure_text x))))

-- A client that has read everything, connected to a session that is logged in, has no transfer, and
-- whose driver is in a context.
pub record Stands {Ctx : Type 0} (ctx : Ctx) (c : Conn (Peer Ctx)) : Type 0 where
  pub drained : c.input ≡ []
  pub listening : c.peer.listening ≡ true
  pub logged_in : c.peer.session.is_logged_in ≡ true
  pub opened : c.peer.session.fs ≡ some ctx
  pub idle : c.peer.session.busy ≡ false
  pub unlocked : c.peer.session.mu ≡ false

pub reply-unlocked :
    {Ctx : Type 0} (s : Session Ctx) (code : ℕ) (m : Bytes)
    → s.mu ≡ false
    → reply code m s ≡ done (write (reply_line code m) s)
unfolding reply
reply-unlocked s code m h = ap (λ b. if b then deadlock else done (write (reply_line code m) s)) h

pub reply_error-unlocked :
    {Ctx : Type 0} (s : Session Ctx) (x : FsError)
    → s.mu ≡ false
    → reply_error x s ≡ done (write (reply_line 550 (failure_text x)) s)
unfolding reply_error
reply_error-unlocked s not_exist h = reply-unlocked s 550 _ h
reply_error-unlocked s permission h = reply-unlocked s 550 _ h
reply_error-unlocked s exist h = reply-unlocked s 550 _ h
reply_error-unlocked s (other m) h = reply-unlocked s 550 _ h

-- The code and the message of the reply to an edit.
abbrev pub answer_code : Option FsError → ℕ
answer_code none = 250
answer_code (some x) = 550

abbrev pub answer_text : Bytes → Option FsError → Bytes
answer_text m none = m
answer_text m (some x) = failure_text x

pub attempt-answer :
    {Ctx : Type 0} (s : Session Ctx) (m : Bytes) (r : Ctx × Option FsError)
    → s.mu ≡ false
    → attempt r s (reply 250 m)
      ≡ done (write (reply_line (answer_code r.1) (answer_text m r.1)) (store r.0 s))
attempt-answer s m (ctx, none) h = reply-unlocked (store ctx s) 250 m h
attempt-answer s m (ctx, some x) h = reply_error-unlocked (store ctx s) x h

pub none_of-IsText : (m : Bytes) → none_of is_eol m ≡ true → IsText m
none_of-IsText = none_of-All is_eol

pub answer-fits : (o : Option FsError) → (100 ≤ answer_code o) × (answer_code o ≤ 999)
answer-fits none = (omega arith, omega arith)
answer-fits (some x) = (omega arith, omega arith)

pub answer-IsText :
    (m : Bytes) (o : Option FsError) → IsText m → IsReportable o → IsText (answer_text m o)
answer-IsText m none h r = h
answer-IsText m (some x) h r = r

-- What follows once the response to a command is known.
pub expect_2xx_of-sent :
    {S : Type 0} (w : Wire S) (c : Conn S) (name arg : Bytes) (p : Conn S × Result Response)
    → send_command w name (arg ∷ []) c ≡ p
    → (expect_2xx_of w name (arg ∷ []) >>= λ _. pure tt) c
      ≡ ((λ _. p) >>= (λ r. checked w name (expect_2xx r)) >>= λ _. pure tt) c
unfolding expect_2xx_of
expect_2xx_of-sent w c name arg p h =
    ap (λ p. ((λ (_ : Conn _). p) >>= (λ r. checked w name (expect_2xx r)) >>= λ _. pure tt) c) h

module _ {Ctx : Type 0} (e : Env Ctx) (w : Wire (Peer Ctx)) where
  pub past-checks :
      (s : Session Ctx) (ctx : Ctx) (k : Ctx → Outcome (Session Ctx))
      → s.is_logged_in ≡ true
      → s.fs ≡ some ctx
      → (if not s.is_logged_in then not_logged_in s else with_fs s k) ≡ k ctx
  past-checks s ctx k l f =
      ap (λ b. if not b then not_logged_in s else with_fs s k) l
      ∙ ap (λ o. elim o [ none ↦ panic | some c ↦ k c ]) f

  -- What the client makes of the reply to an edit.
  abbrev pub made_of : Bytes → Bytes → Option FsError → Result (Unit {0})
  made_of command m none = ok tt
  made_of command m (some x) = err (protocol command (response 550 (failure_text x)))

  pub made_of-Reports : (command m : Bytes) (o : Option FsError) → Reports o (made_of command m o)
  made_of-Reports command m none = refl
  made_of-Reports command m (some x) = (command, refl)

  -- A connection after an edit.
  abbrev pub after : Conn (Peer Ctx) → Session Ctx → Bytes → Option FsError → Conn (Peer Ctx)
  after c t m o = record {
    client = c.client;
    input = [];
    peer = live (write (reply_line (answer_code o) (answer_text m o)) t);
  }

  pub expect_2xx_of-answer :
      (c : Conn (Peer Ctx)) (name arg m : Bytes) (o : Option FsError) (t : Session Ctx)
      → send_command (served_by e w) name (arg ∷ []) c
        ≡ (after c t m o, ok (response (answer_code o) (answer_text m o)))
      → (expect_2xx_of (served_by e w) name (arg ∷ []) >>= λ _. pure tt) c
        ≡ (after c t m o, made_of name m o)
  unfolding expect_2xx is_2xx
  expect_2xx_of-answer c name arg m none t h = expect_2xx_of-sent (served_by e w) c name arg _ h
  expect_2xx_of-answer c name arg m (some x) t h = expect_2xx_of-sent (served_by e w) c name arg _ h

  -- A handler that replies to a driver's call, asked by a client.
  pub edit-answer :
      (c : Conn (Peer Ctx)) (ctx : Ctx) (name arg m : Bytes) (r : Ctx × Option FsError)
      → IsName name
      → IsArg arg
      → IsText m
      → IsReportable r.1
      → e.config.disabled_commands name ≡ false
      → Stands ctx c
      → dispatch e name arg c.peer.session
        ≡ done (write (reply_line (answer_code r.1) (answer_text m r.1)) (store r.0 c.peer.session))
      → (expect_2xx_of (served_by e w) name (arg ∷ []) >>= λ _. pure tt) c
        ≡ (after c (store r.0 c.peer.session) m r.1, made_of name m r.1)
  edit-answer c ctx name arg m r n h hm hr d st hd =
      expect_2xx_of-answer c name arg m r.1 (store r.0 c.peer.session) (
        send_command-served e w c name arg n h st.drained st.listening st.idle d _ _
          (store r.0 c.peer.session) (answer-fits r.1).0 (answer-fits r.1).1
          (answer-IsText m r.1 hm hr) hd refl)

  -- An edit on a connection and on the driver: the connection stands for the driver's context
  -- afterwards, and its result reports the driver's.
  abbrev pub Follows : Edit → Ctx → Conn (Peer Ctx) → Type 0
  Follows x ctx c =
      let r = apply e.driver x ctx in
      let p = perform (served_by e w) x c in Stands r.0 p.0 × Reports r.1 p.1
