-- ===== src/Client/Served.antt =====
-- The client's commands (control.go, directory.go) sent to a session of the server (server/session.go).
pub mod Sending
pub mod Edits
pub mod Steps
pub mod Follow
pub mod Whole
use ftp.Telnet.{telnet_iac}
use ftp.Telnet.Filter.{strip, strip_command, strip_option}
use ftp.Base.{
  ltb, leb, length-append, ℕ, suc, ◌+◌, ◌-◌, ◌≤◌, Bool, true, false, not, ◌&&◌, Option, none, some,
  List, [], ◌∷◌, ◌++◌, reverse, Bytes, text, bytes_eq, is_empty, length, take, if◌then◌else◌, ◌==◌,
  ◌≡◌, ◌≢◌, refl, ap, sym, ◌∙◌, arith, All, All-append, Lacks, cut, cut-part, trim_right, trim_line,
  is_eol, to_upper, join, space, cr, lf, pos, append_assoc, append-nil,
}
use ftp.Session.State.{
  Env, Session, Outcome, done, panic, deadlock, Out, reply_line, write, reply, FsError, FileInfo,
}
use ftp.Session.Text.{print_out}
use ftp.Session.File.{handle_rnfr, handle_rnto}
use ftp.Session.Dispatch.{handle_command, guarded, dispatch, parse_line, run_handler, find_handler}
use ftp.Client.Reply.{Response, command_line, to_lines, read_response, got, bad}
use ftp.Client.Printed.{IsText, line_of, to_lines-line, print_all, read_response-reply_line}
use ftp.Client.Wire.{
  Wire, Conn, Client, Result, ok, err, unsent, unread, send_command, next_response,
}

-- What a session wrote after it was in the state `old`.
unfoldable pub written : {Ctx : Type 0} → Session Ctx → Session Ctx → List Out
written old s = reverse (take (length s.out - length old.out) s.out)

-- A session, and whether it still takes lines.
pub record Peer (Ctx : Type 0) : Type 0 where
  pub session : Session Ctx
  pub listening : Bool

abbrev pub live : {Ctx : Type 0} → Session Ctx → Peer Ctx
live s = record { session = s; listening = true }

abbrev pub gone : {Ctx : Type 0} → Session Ctx → Peer Ctx
gone s = record { session = s; listening = false }

-- What `readCommand` takes, with the line end.
abbrev pub max_command_length : ℕ
max_command_length = 4096

-- A session after it dealt with a line, and the lines that it wrote. One that panics or waits for
-- itself writes none and takes no more.
abbrev pub answered : {Ctx : Type 0} → Session Ctx → Outcome (Session Ctx) → Peer Ctx × List Bytes
unfolding written
answered s (done t) = (live t, to_lines (print_all (written s t)))
answered s panic = (gone s, [])
answered s deadlock = (gone s, [])

-- A line that is too long is answered, and ends the session.
unfoldable pub answer_line : {Ctx : Type 0} → Env Ctx → Bytes → Session Ctx → Peer Ctx × List Bytes
unfolding reply written
answer_line e line s =
    let refused = answered s (reply 500 (text "Command line too long.") s) in
    if ltb max_command_length (length line)
    then (gone refused.0.session, refused.1)
    else answered s (handle_command e line s)

unfoldable pub answer_lines :
    {Ctx : Type 0} → Env Ctx → List Bytes → Session Ctx → Peer Ctx × List Bytes
unfolding answer_line
answer_lines e [] s = (live s, [])
answer_lines e (l ∷ ls) s =
    let r = answer_line e l s in
    let more = answer_lines e ls r.0.session in if r.0.listening then (more.0, r.1 ++ more.1) else r

-- `serve`, for whole lines that arrive at once, the Telnet commands taken out: each line in turn.
unfoldable pub serve : {Ctx : Type 0} → Env Ctx → Bytes → Peer Ctx → Option (Peer Ctx × List Bytes)
unfolding answer_lines
serve e bytes p =
    some (if p.listening then answer_lines e (to_lines (strip bytes)) p.session else (p, []))

-- A client that is connected to the session.
abbrev pub served_by : {Ctx : Type 0} → Env Ctx → Wire (Peer Ctx) → Wire (Peer Ctx)
served_by e w = record w { respond = serve e }
