-- ===== src/Telnet.antt =====
-- server/telnet.go: the reader that takes Telnet commands out of the control connection, over a
-- buffered reader (bufio.Reader) whose source delivers its bytes in chunks.
pub mod Filter
pub mod Tests
use ftp.Bufio.{Reader, stream, read_byte}
use ftp.Base.{
  ℕ, zero, suc, Bool, true, false, not, ◌&&◌, ◌||◌, Option, none, some, List, [], ◌∷◌, ◌++◌, Bytes,
  if◌then◌else◌, ◌==◌, length, is_empty,
}

abbrev pub telnet_iac : ℕ
telnet_iac = 0xff

abbrev pub telnet_will : ℕ
telnet_will = 0xfb

abbrev pub telnet_wont : ℕ
telnet_wont = 0xfc

abbrev pub telnet_do : ℕ
telnet_do = 0xfd

abbrev pub telnet_dont : ℕ
telnet_dont = 0xfe

-- Commands of three bytes.
abbrev pub has_option : ℕ → Bool
has_option c = c == telnet_will || (c == telnet_wont || (c == telnet_do || c == telnet_dont))

-- What a call of Read stored, whether it returned an error, and the reader after it.
pub record Result : Type 0 where
  pub stored : Bytes
  pub failed : Bool
  pub reader : Reader

abbrev pub store : ℕ → Option Result → Option Result
store b none = none
store b (some r) = some (record r { stored = b ∷ r.stored })

abbrev pub stop : Bool → Reader → Option Result
stop failed r = some (record { stored = []; failed = failed; reader = r })

-- After an IAC: an escaped one is kept, a command is skipped with its option.
unfoldable pub after_iac :
    (Reader → Option Result) → (Reader → Option Result) → Reader → Option Result
after_iac kept skipped r = elim (read_byte r) [
  | none ↦ stop true r
  | some (next, q) ↦
      if next == telnet_iac
      then kept q
      else if has_option next
      then (elim (read_byte q) [ none ↦ stop true q | some (_, t) ↦ skipped t ])
      else skipped q
]

-- The loop of Read: `room` bytes are free in p, and `started` says that some were stored. `none`
-- means that the fuel ran out.
unfoldable pub read_loop : ℕ → ℕ → Bool → Reader → Option Result
read_loop zero room started r = none
read_loop (suc fuel) zero started r = stop false r
read_loop (suc fuel) (suc room) started r =
    let kept = λ (b : ℕ) (q : Reader). store b (read_loop fuel room true q) in
    let skipped = λ (q : Reader). read_loop fuel (suc room) started q in
    if started && is_empty r.buffered then stop false r else (elim (read_byte r) [
      | none ↦ stop (not started) r
      | some (b, q) ↦ if b == telnet_iac then after_iac (kept telnet_iac) skipped q else kept b q
    ])

-- Read into a slice of length `room`. Each round takes a byte at least, so the fuel is enough.
unfoldable pub read : ℕ → Reader → Option Result
unfolding read_loop read_byte after_iac
read room r = read_loop (suc (length (stream r))) room false r
