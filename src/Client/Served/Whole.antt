-- ===== src/Client/Served/Whole.antt =====
-- A client that edits files on the server, from the first edit to the last.
use ftp.Base.{false, Option, List, [], ◌∷◌, Bytes, ◌≡◌, All}
use ftp.Session.State.{Env, ClientContext, FsError}
use ftp.Client.Wire.{Wire, Conn, Result}
use ftp.Client.Served.{Peer, served_by}
use ftp.Client.Served.Edits.{Edit, IsEdit, perform, apply, IsReportable, Reports, Stands}
use ftp.Client.Served.Follow.{perform-Follows}

-- Edits in turn: the connection at the end, and the result of each.
abbrev pub perform_all :
    {S : Type 0} → Wire S → List Edit → Conn S → Conn S × List (Result (Unit {0}))
perform_all w [] c = (c, [])
perform_all w (x ∷ xs) c =
    let p = perform w x c in let rest = perform_all w xs p.0 in (rest.0, p.1 ∷ rest.1)

-- The same on the driver: its context at the end, and the error of each, if any.
abbrev pub apply_all :
    {Ctx : Type 0} → ClientContext Ctx → List Edit → Ctx → Ctx × List (Option FsError)
apply_all v [] ctx = (ctx, [])
apply_all v (x ∷ xs) ctx =
    let r = apply v x ctx in let rest = apply_all v xs r.0 in (rest.0, r.1 ∷ rest.1)

abbrev pub ReportsAll : List (Option FsError) → List (Result (Unit {0})) → Type 0
ReportsAll [] [] = Unit
ReportsAll [] (r ∷ rs) = ⊥
ReportsAll (o ∷ os) [] = ⊥
ReportsAll (o ∷ os) (r ∷ rs) = Reports o r × ReportsAll os rs

-- Any `Delete`, `RemoveDir` and `Rename` calls, in any order, whose paths hold no CR, LF or byte 255
-- and have at most 4089 bytes, and with a path that is not empty as the old one of each `Rename`. The
-- client is connected to a session that takes lines, is logged in and has no transfer, whose
-- configuration disables no command and whose driver's errors are texts of one line. The calls leave
-- the driver's context as the driver's own operations would in that order (a renaming does nothing
-- unless the driver knows the file), give an error exactly where those do, the protocol error with the
-- code 550 and the message for it, and leave nothing unread on the connection, which can be used as
-- before.
pub perform_all-apply_all :
    {Ctx : Type 0} (e : Env Ctx) (w : Wire (Peer Ctx)) (xs : List Edit) (ctx : Ctx)
    → (c : Conn (Peer Ctx)) → All IsEdit xs
    → ((x : Edit) (ctx : Ctx) → IsReportable (apply e.driver x ctx).1)
    → ((name : Bytes) → e.config.disabled_commands name ≡ false)
    → Stands ctx c
    → let r = apply_all e.driver xs ctx in
      let p = perform_all (served_by e w) xs c in Stands r.0 p.0 × ReportsAll r.1 p.1
perform_all-apply_all e w [] ctx c h r d s = (s, tt)
perform_all-apply_all e w (x ∷ xs) ctx c h r d s =
    let one = perform-Follows e w x ctx c h.0 (r x ctx) d s in
    let rest =
      perform_all-apply_all e w xs (apply e.driver x ctx).0 (perform (served_by e w) x c).0 h.1 r d
        one.0 in
    (rest.0, (one.1, rest.1))
