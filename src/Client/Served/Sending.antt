-- ===== src/Client/Served/Sending.antt =====
-- A command of the client (control.go) that a session (server/session.go) answers by one line.
use ftp.Telnet.{telnet_iac}
use ftp.Telnet.Filter.{strip}
use ftp.Base.{
  ltb, length-append, ℕ, suc, ◌-◌, ◌≤◌, true, false, not, ◌&&◌, none, some, List, [], ◌∷◌, ◌++◌,
  reverse, Bytes, text, bytes_eq, is_empty, length, take, if◌then◌else◌, ◌≡◌, refl, ap, sym, ◌∙◌,
  arith, All-append, Lacks, cut-part, trim_right, trim_line, is_eol, to_upper, join, space, cr, lf,
  pos, append_assoc, append-nil,
}
use ftp.Session.State.{Env, Session, done, Out, reply_line, write, reply}
use ftp.Session.Text.{print_out}
use ftp.Session.Dispatch.{handle_command, guarded, dispatch, parse_line}
use ftp.Client.Reply.{Response, command_line, to_lines, got, bad}
use ftp.Client.Printed.{IsText, line_of, to_lines-line, print_all, read_response-reply_line}
use ftp.Client.Wire.{Wire, Conn, ok, err, unsent, unread, send_command, next_response}
use ftp.Client.Served.{
  Peer, live, gone, written, max_command_length, answered, answer_line, answer_lines, serve,
  served_by,
}

-- An argument that reaches the session as it is: a text with no Telnet command, in a line that is not
-- too long.
pub record IsArg (arg : Bytes) : Type 0 where
  pub is_text : IsText arg
  pub filtered : Lacks telnet_iac arg
  pub fits : length arg ≤ 4089

-- A name of a command, in upper case.
pub record IsName (name : Bytes) : Type 0 where
  pub is_text : IsText name
  pub spaceless : Lacks space name
  pub filtered : Lacks telnet_iac name
  pub fits : length name ≤ 4
  pub is_upper : to_upper name ≡ name

module _ {Ctx : Type 0} (e : Env Ctx) (s : Session Ctx) where
  handle_command-trimmed :
      (raw line name arg : Bytes)
      → trim_right is_eol raw ≡ line
      → is_empty line ≡ false
      → parse_line line ≡ (name, arg)
      → handle_command e raw s ≡ guarded e name arg s
  unfolding handle_command
  handle_command-trimmed raw line name arg t n p = rw (handle_command, t, n, p) refl

  guarded-idle :
      (name arg : Bytes)
      → s.busy ≡ false
      → e.config.disabled_commands name ≡ false
      → guarded e name arg s ≡ dispatch e name arg s
  unfolding guarded
  guarded-idle name arg b d =
      ap
        (λ busy.
          if busy && (not (bytes_eq name (text "ABOR")) && not (bytes_eq name (text "STAT")))
          then reply 503 (text "Transfer in progress, please ABOR or wait.") s
          else if e.config.disabled_commands name
          then reply 502 (text "Command not implemented.") s
          else dispatch e name arg s)
        b
      ∙ ap
          (λ off.
            if off then reply 502 (text "Command not implemented.") s else dispatch e name arg s)
          d

trim_right-line :
    (name arg : Bytes)
    → IsName name
    → IsText arg
    → trim_right is_eol (command_line name (arg ∷ [])) ≡ name ++ space ∷ arg
unfolding command_line join
trim_right-line name arg n h =
    ap (trim_right is_eol) (sym (append_assoc name (space ∷ arg) (cr ∷ lf ∷ [])))
    ∙ trim_line (name ++ space ∷ arg) (All-append _ name (space ∷ arg) n.is_text (refl, h))

parse_line-name : (name arg : Bytes) → IsName name → parse_line (name ++ space ∷ arg) ≡ (name, arg)
unfolding parse_line
parse_line-name name arg n = rw (parse_line, cut-part space name arg n.spaceless, n.is_upper) refl

is_empty-line : (name arg : Bytes) → is_empty (name ++ space ∷ arg) ≡ false
is_empty-line [] arg = refl
is_empty-line (b ∷ name) arg = refl

-- The reply of one line, as the client reads it.
abbrev pub response : ℕ → Bytes → Response
response code m = record { code = pos code; message = m; lines = line_of code space m ∷ [] }

length_self : (xs : List Out) → suc (length xs) - length xs ≡ 1
length_self xs = omega arith

written-one :
    {Ctx : Type 0} (old t : Session Ctx) (o : Out)
    → t.out ≡ old.out
    → written old (write o t) ≡ o ∷ []
unfolding written
written-one old t o h =
    ap (λ xs. reverse (take (suc (length t.out) - length xs) (o ∷ t.out))) (sym h)
    ∙ ap (λ n. reverse (take n (o ∷ t.out))) (length_self t.out)

strip-Lacks : (s : Bytes) → Lacks telnet_iac s → strip s ≡ s
strip-Lacks [] h = refl
strip-Lacks (c ∷ s) h = ground (arith, strip-Lacks s h.1)

command_line-line :
    (name arg : Bytes) → command_line name (arg ∷ []) ≡ (name ++ space ∷ arg) ++ cr ∷ lf ∷ []
unfolding command_line join
command_line-line name arg = sym (append_assoc name (space ∷ arg) (cr ∷ lf ∷ []))

strip-command_line :
    (name arg : Bytes)
    → IsName name
    → IsArg arg
    → strip (command_line name (arg ∷ [])) ≡ command_line name (arg ∷ [])
unfolding command_line join
strip-command_line name arg n h =
    strip-Lacks (command_line name (arg ∷ []))
      (All-append _ name _ n.filtered (refl, All-append _ arg _ h.filtered (refl, (refl, tt))))

to_lines-command_line :
    (name arg : Bytes)
    → IsName name
    → IsArg arg
    → to_lines (command_line name (arg ∷ [])) ≡ command_line name (arg ∷ []) ∷ []
unfolding to_lines
to_lines-command_line name arg n h =
    ap to_lines (command_line-line name arg)
    ∙ to_lines-line (name ++ space ∷ arg)
        (All-append _ name (space ∷ arg) n.is_text (refl, h.is_text)) []
    ∙ ap (λ l. l ∷ []) (sym (command_line-line name arg))

command_line-fits :
    (name arg : Bytes)
    → IsName name
    → IsArg arg
    → ltb max_command_length (length (command_line name (arg ∷ []))) ≡ false
unfolding command_line join
command_line-fits name arg n h =
    let whole = length-append name (space ∷ (arg ++ cr ∷ lf ∷ [])) in
    let last = length-append arg (cr ∷ lf ∷ []) in ground (arith, whole, last, n.fits, h.fits)

-- The answer to the last line.
abbrev last_of : {Ctx : Type 0} → Peer Ctx × List Bytes → Peer Ctx × List Bytes
last_of r = if r.0.listening then (live r.0.session, r.1 ++ []) else r

answer_line-short :
    {Ctx : Type 0} (e : Env Ctx) (line : Bytes) (s : Session Ctx)
    → ltb max_command_length (length line) ≡ false
    → answer_line e line s ≡ answered s (handle_command e line s)
unfolding answer_line
answer_line-short e line s h =
    let refused = answered s (reply 500 (text "Command line too long.") s) in
    ap
      (λ b. if b then (gone refused.0.session, refused.1) else answered s (handle_command e line s))
      h

module _ {Ctx : Type 0} (e : Env Ctx) (w : Wire (Peer Ctx)) where
  serve-command :
      (p : Peer Ctx) (t : Session Ctx) (name arg : Bytes) (o : Out)
      → IsName name
      → IsArg arg
      → p.listening ≡ true
      → p.session.busy ≡ false
      → e.config.disabled_commands name ≡ false
      → dispatch e name arg p.session ≡ done (write o t)
      → t.out ≡ p.session.out
      → serve e (command_line name (arg ∷ [])) p
        ≡ some (live (write o t), to_lines (print_out o ++ []))
  unfolding serve answer_lines answer_line
  serve-command p t name arg o n h i b d hd ho =
      let s = p.session in
      let line = command_line name (arg ∷ []) in
      ap (λ b. some (if b then answer_lines e (to_lines (strip line)) s else (p, []))) i
      ∙ ap (λ ls. some (answer_lines e (to_lines ls) s)) (strip-command_line name arg n h)
      ∙ ap (λ ls. some (answer_lines e ls s)) (to_lines-command_line name arg n h)
      ∙ ap (λ r. some (last_of r))
          (answer_line-short e line s (command_line-fits name arg n h)
            ∙ ap (answered s) (
                handle_command-trimmed e s _ _ name arg (trim_right-line name arg n h.is_text)
                  (is_empty-line name arg) (parse_line-name name arg n)
                ∙ guarded-idle e s name arg b d
                ∙ hd))
      ∙ ap (λ ls. some (live (write o t), ls))
          (append-nil (to_lines (print_all (written s (write o t))))
            ∙ ap (λ os. to_lines (print_all os)) (written-one s t o ho))

  -- A command that the session answers by one line.
  pub send_command-served :
      (c : Conn (Peer Ctx)) (name arg : Bytes)
      → IsName name
      → IsArg arg
      → c.input ≡ []
      → c.peer.listening ≡ true
      → c.peer.session.busy ≡ false
      → e.config.disabled_commands name ≡ false
      → (code : ℕ) (m : Bytes) (t : Session Ctx) → 100 ≤ code
      → code ≤ 999
      → IsText m
      → dispatch e name arg c.peer.session ≡ done (write (reply_line code m) t)
      → t.out ≡ c.peer.session.out
      → send_command (served_by e w) name (arg ∷ []) c ≡ (
        record { client = c.client; input = []; peer = live (write (reply_line code m) t) },
        ok (response code m),
      )
  unfolding send_command serve next_response to_lines
  send_command-served c name arg n h i v b d code m t low high hm hd ho =
      ap
        (λ r. elim r [
          | none ↦ (c, err unsent)
          | some (peer, lines) ↦
              next_response (record { client = c.client; input = c.input ++ lines; peer = peer })
        ])
        (serve-command c.peer t name arg (reply_line code m) n h v b d hd ho)
      ∙ ap
          (λ input. next_response (record {
            client = c.client;
            input = input ++ to_lines (print_out (reply_line code m) ++ []);
            peer = live (write (reply_line code m) t);
          }))
          i
      ∙ ap
          (λ r. elim r [
            | got r rest ↦ (
              record { client = c.client; input = rest; peer = live (write (reply_line code m) t) },
              ok r,
            )
            | bad x rest ↦ (
              record { client = c.client; input = rest; peer = live (write (reply_line code m) t) },
              err (unread x),
            )
          ])
          (read_response-reply_line code m low high hm [])
