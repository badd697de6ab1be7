-- ===== src/Lib.antt =====
-- A verification library for the FTP server and the FTP client of this repository: what they do on
-- their control connections, with listings and with the bytes of transfers, for every input, as
-- functions that can be run, with theorems about them.
--
-- The program. A server (server/server.go) accepts control connections and gives each a session
-- (server/session.go). The session reads lines through a reader that takes Telnet commands out
-- (server/telnet.go), and handleCommand checks each line and calls the handler of its command. The
-- handlers answer on the control connection, call the driver that the login provided
-- (server/driver.go), and open data connections; a file transfer runs in a goroutine that shares the
-- session and writes the final reply of its command. ASCII transfers pass through readers that
-- translate line ends (server/ascii.go). A client (client.go, control.go) sends commands to such a
-- server and reads its responses; it opens data connections (data.go), lists directories (directory.go,
-- mlst.go) and copies files (transfer.go), at a limited rate (internal/ratelimit).
--
-- The files.
--   * Base and its children: native numbers, lists, bytes and texts, decimal numbers, integers, and
--     what the handlers use of Go's strings and strconv packages. White space is that of Go's package
--     unicode, in UTF-8. Case is changed for ASCII letters only, so that U+017F and U+0131, which Go
--     takes to S and I, stay as they are.
--   * Bufio: bufio.Reader as a buffer over a source that delivers its bytes in chunks and then ends,
--     with the `fill` that both readers of server/ascii.go have.
--   * Telnet: telnetReader of server/telnet.go; Telnet/Filter has its specification and proofs.
--   * Ascii: asciiReader and asciiWriter of server/ascii.go; Ascii/Download and Ascii/Upload have their
--     specifications and proofs, Ascii/Blocks the lemmas on one block that both share.
--   * Session/State: the session record with the names of the source's fields, newSession, reply and
--     replyError, and the parameters of a session: its configuration, the network, the password check
--     and the driver, each a record of functions. They may be others for each line, so that clocks,
--     sockets and files may change between two commands.
--   * Session/File, Transfer, Address, Info, Site: a handler handle_x for each handleX of
--     server/session_file.go, session_transfer.go, session_info.go, session_access.go,
--     session_security.go, session_extensions.go and session_compliance.go; Session/Text prints the
--     quoted directory of PWD.
--   * Session/Dispatch: the table of handlers and handleCommand. Session/Worker: the goroutine of a
--     transfer in the steps between which the main loop may run, and the session as a machine that
--     takes lines and such steps in any order.
--   * Session/Contract and its children: one contract for all handlers, and its proofs by file.
--     Session/Run and its children: whole sessions. Session/Gate: a race between two transfers.
--     Session/Blank: SITE with white space for its argument. Session/Ports: the arithmetic of the
--     passive ports.
--   * Session/Keep and its children: what the handlers keep of the driver's context, for any property
--     that the driver's methods keep; the interface between sessions and drivers.
--   * Driver/Path: filepath.Clean, filepath.Join and `resolve` of server/driver_fs.go. Driver/Context:
--     fsContext as an instance of the driver's record, over a root handle (os.Root) whose operations
--     are parameters, and Authenticate. Driver/Confined: where paths resolve to. Driver/Sessions:
--     sessions that meet this driver.
--   * Server: which connections server/server.go tracks and admits, with the states that are reached as
--     an indexed data type; Server/Limits has the limits.
--   * Client/Reply: how the client reads replies and writes commands (control.go). Client/Printed: what
--     the server prints, read by the client.
--   * Client/Data: data.go's parsing and formatting of addresses, with the regular expressions it uses;
--     its children read what the server announces, and the reverse. Client/Listing: the parsers of
--     directory.go. Client/Facts: those of mlst.go. Their children have the proofs.
--   * Client/Wire: the client's fields, and sendCommand over a connection. Client/Commands: the
--     commands of client.go and directory.go. Client/DataConn: how data.go opens, uses and ends a data
--     connection. Client/Transfers: the transfers of transfer.go, and the listings that use a data
--     connection.
--   * Client/Tree: Walk and RemoveDirRecursive of directory.go and DownloadDir of transfer.go. Its
--     children have a tree of files as the listings show it, and what those do on it. Client/Upload:
--     UploadDir, over a list of what is on the local disk.
--   * Client/Served: a client whose connection ends in a session of the server, which takes the Telnet
--     commands out of what it is sent and then lines of at most 4096 bytes; a longer one, a panic or a
--     deadlock ends it. Its children follow edits of files from the client's call to the driver's.
--   * Ratelimit: the limiter of internal/ratelimit, with its reader and writer.
--   * Session/Tests, Driver/Tests, Server/Tests, Client/Tests, Telnet/Tests, Ascii/Tests and
--     Ratelimit/Tests: runs at concrete inputs.
--
-- How state is modelled. A handler takes a session to an outcome: the session after it, a panic (a call
-- through the nil driver, an index out of range), or a deadlock (a lock of the mutex that the handler
-- itself holds). What is written to the control connection is a list, the latest first. A transfer's
-- context is a number, cancelled once it is in a list. A worker is copying, about to write its 226, or
-- left with its deferred calls. A client's operation takes its fields, the lines that it has not read
-- yet and the state of what it is connected to, to those after it and a result; what sending a line
-- does, and what a data connection yields, are functions in a record.
--
-- Bounds and fuel. The readers' loops run on fuel of one more than the bytes still to come, and each
-- round takes a byte or ends; that this is enough is part of their theorems. LIST -R descends as far as
-- the driver's directories nest, a number that the driver's record gives. The passive port search keeps
-- the 32-bit arithmetic of the source; a range is taken to hold fewer than 2 ^ 31 ports. Listing lines
-- are scanned by structural recursion, with bufio.Scanner's limit of 64 KiB. The walk of a tree
-- descends on fuel, since a server can list one that never ends; more than the tree's depth is enough.
-- The limiter's Write runs on fuel of one more than the bytes to write. The limiter counts tokens in
-- thousand-millionths of a byte and time in nanoseconds, exactly, where the source uses float64. A call
-- of take is one step, so calls that overlap on one limiter, as sessions that share the server's global
-- limiter make, are not covered.
--
-- Not modelled: errors of writes to the server's control connection, deadlines, logging, metrics,
-- session identifiers, the accept loop and the waiting of Shutdown (server/server.go), dialling, TLS,
-- keep-alives and local files of the client (client.go, transfer.go). In active mode a data connection
-- is taken as accepted when it is first used. Reading IPv6 addresses is a parameter. The bytes that a
-- transfer copies are not part of the session's state. Between handlers, a busy worker and the main
-- loop interleave at the steps named above only. The delimiter of EPRT is one byte, as it is below 128;
-- Go takes one from 128 up for the two bytes of its code point.
pub mod Ascii
pub mod Base
pub mod Bufio
pub mod Client
pub mod Driver
pub mod Ratelimit
pub mod Server
pub mod Session
pub mod Telnet
