-- ===== src/Ratelimit.antt =====
-- internal/ratelimit/ratelimit.go: the token bucket, and the reader and writer that it slows down.
-- Amounts of tokens are counted in thousand-millionths of a byte and times in nanoseconds, so that one
-- nanosecond brings as many units as the rate has bytes a second; what the source computes in float64
-- is computed exactly.
pub mod Bucket
pub mod Bounds
pub mod Overrun
pub mod Chunks
pub mod Tests
use ftp.Base.{
  ℕ, zero, suc, ◌+◌, ◌-◌, ◌*◌, ◌/◌, ◌^◌, Bool, true, false, Option, none, some, List, [], ◌∷◌,
  Bytes, length, take, drop, if◌then◌else◌, leb, ltb, ◌==◌, ℤ, pos, negsuc,
}

pub record Limiter : Type 0 where
  pub rate : ℕ  -- bytes per second
  pub burst : ℕ
  pub tokens : ℕ
  pub last_update : ℕ

-- One second in nanoseconds, and one byte in units.
abbrev pub second : ℕ
second = 10 ^ 9

-- `New`, at a time
unfoldable pub new : ℤ → ℕ → Option Limiter
new (negsuc n) now = none
new (pos n) now =
    if n == 0
    then none
    else some (record { rate = n; burst = n * second; tokens = n * second; last_update = now })

abbrev pub smaller : ℕ → ℕ → ℕ
smaller a b = if leb a b then a else b

-- The tokens of the time since the last update, up to the burst.
unfoldable pub refill : Limiter → ℕ → Limiter
refill l now = record l {
  tokens = smaller (l.tokens + (now - l.last_update) * l.rate) l.burst;
  last_update = now;
}

-- How long `take` sleeps when `need` units are too many: not longer than a second.
unfoldable pub wait_time : Limiter → ℕ → ℕ
wait_time l need = smaller ((need - l.tokens) / l.rate) second

abbrev pub spend : Limiter → ℕ → Limiter
spend l need = record l { tokens = if leb need l.tokens then l.tokens - need else 0 }

-- `take` of n bytes, at a time; the sleep ends `late` after it should. The time after it goes along.
unfoldable pub take_bytes : Limiter → ℕ → ℕ → ℕ → Limiter × ℕ
unfolding refill wait_time
take_bytes l n now late =
    let full = refill l now in
    let need = n * second in
    let woken = now + wait_time full need + late in
    if n == 0
    then (l, now)
    else if leb need full.tokens
    then (spend full need, now)
    else (spend (refill full woken) need, woken)

-- A call of `take`: how many bytes, how long after the call before it, and how late its sleep ends.
pub record Call : Type 0 where
  pub bytes : ℕ
  pub gap : ℕ
  pub late : ℕ

unfoldable pub step : Call → Limiter × ℕ → Limiter × ℕ
unfolding take_bytes
step c (l, now) = take_bytes l c.bytes (now + c.gap) c.late

unfoldable pub run : List Call → Limiter × ℕ → Limiter × ℕ
unfolding step
run [] s = s
run (c ∷ cs) s = run cs (step c s)

abbrev pub read_chunk : ℕ
read_chunk = 8 * 1024

abbrev pub write_chunk : ℕ
write_chunk = 64 * 1024

-- `Read` of the reader, for a slice of a length: the call of `take` that it makes, if any, and the
-- length that it asks of the reader below.
unfoldable pub read_call : ℕ → ℕ → ℕ → Option Call × ℕ
read_call len gap late =
    let size = if ltb read_chunk len then read_chunk else len in
    if len == 0 then (none, 0) else (some (record { bytes = size; gap = gap; late = late }), size)

-- What the writer below made of a chunk: how much it wrote, and whether it failed.
pub record Written : Type 0 where
  pub count : ℕ
  pub failed : Bool

-- `Write` of the writer: the chunks' sizes, in order, and how much was written; on fuel.
unfoldable pub write_loop : (Bytes → Written) → ℕ → Bytes → List ℕ × ℕ
write_loop sink zero p = ([], 0)
write_loop sink (suc fuel) p =
    let size = if ltb write_chunk (length p) then write_chunk else length p in
    let w = sink (take size p) in
    let more = write_loop sink fuel (drop w.count p) in
    if length p == 0
    then ([], 0)
    else if w.failed
    then (size ∷ [], w.count)
    else (size ∷ more.0, w.count + more.1)

unfoldable pub write : (Bytes → Written) → Bytes → List ℕ × ℕ
unfolding write_loop
write sink p = write_loop sink (suc (length p)) p
