-- ===== src/Ratelimit/Overrun.antt =====
-- Calls that are too large for the limiter (internal/ratelimit/ratelimit.go).
use native.Mathlib.Nat.{mul-le-mul_right, mul-le-mul_left}
use mathlib.Core.Path.{subst}
use ftp.Base.{
  ℕ, suc, ◌+◌, ◌-◌, ◌*◌, ◌/◌, ◌≤◌, ◌<◌, List, [], ◌∷◌, ◌≡◌, pos, some, sym, arith, All, length, leb,
  ◌==◌,
}
use ftp.Ratelimit.{Limiter, second, refill, wait_time, take_bytes, Call, run, new}
use ftp.Ratelimit.Bucket.{three_ways, smaller_le}
use ftp.Ratelimit.Bounds.{total}

-- Calls of one size, one right after another, with no sleep late.
abbrev pub IsSteady : ℕ → List Call → Type 0
IsSteady n = All (λ c. (c.bytes ≡ n) × (c.gap ≡ 0) × (c.late ≡ 0))

wait_time_le : (l : Limiter) (need : ℕ) → wait_time l need ≤ second
unfolding wait_time
wait_time_le l need = (smaller_le ((need - l.tokens) / l.rate) second).1

take_bytes-quick : (l : Limiter) (n now : ℕ) → (take_bytes l n now 0).1 ≤ now + second
unfolding take_bytes
take_bytes-quick l n now =
    three_ways {A = Limiter × ℕ} (λ s. s.1 ≤ now + second) (n == 0)
      (leb (n * second) (refill l now).tokens) _ _ _ (λ e. omega arith) (λ e. omega arith)
      (omega (arith, wait_time_le (refill l now) (n * second)))

run-steady :
    (n : ℕ) (cs : List Call) (l : Limiter) (now : ℕ)
    → IsSteady n cs
    → (run cs (l, now)).1 ≤ now + length cs * second
unfolding run
run-steady n [] l now h = omega arith
run-steady n (c ∷ cs) l now ((e, g, z), hs) =
    let s1 = take_bytes l c.bytes (now + c.gap) c.late in
    let quick : s1.1 ≤ now + second =
      subst (λ d. (take_bytes l c.bytes (now + d) c.late).1 ≤ now + second) (sym g)
        (subst (λ d. (take_bytes l c.bytes (now + 0) d).1 ≤ now + second) (sym z)
          (omega (arith, take_bytes-quick l c.bytes (now + 0)))) in
    omega (arith, run-steady n cs s1.0 s1.1 hs, quick)

suc_times : (k n : ℕ) → suc k * n ≡ n + k * n
suc_times k n = grind arith

total-steady : (n : ℕ) (cs : List Call) → IsSteady n cs → total cs ≡ length cs * n
total-steady n [] h = omega arith
total-steady n (c ∷ cs) (h, hs) = omega (arith, total-steady n cs hs, h.0, suc_times (length cs) n)

apart : (r d k : ℕ) → r * (second + d + k) ≡ r * second + r * d + k * r
apart r d k = grind arith

large_times : (k r : ℕ) → k * (3 * r + 1) ≡ 3 * (k * r) + k
large_times k r = grind arith

slow_times : (r k : ℕ) → r * (k * second) ≡ k * r * second
slow_times r k = grind arith

overrun_sum :
    (r n k b d : ℕ)
    → 0 < k
    → 3 * r < n
    → d ≤ k * second
    → b ≡ k * n
    → r * (second + d + k) < b * second
overrun_sum r n k b d h g le e =
    let size : k * (3 * r + 1) ≤ k * n = mul-le-mul_left k (omega arith) in
    let once : 1 * r ≤ k * r = mul-le-mul_right r (omega arith) in
    let slow : r * d ≤ r * (k * second) = mul-le-mul_left r le in
    omega (arith, size, once, slow, apart r d k, large_times k r, slow_times r k)

-- The limiter that `New` makes, with a positive limit; then one or more calls of one size, one right
-- after another, with no sleep late. If the size is more than three seconds' worth, the bytes that were
-- let through exceed the limit for the time that passed, one second more, and one nanosecond for each
-- call: a sleep ends after a second however many tokens are missing.
pub large_calls_overrun :
    (r n start : ℕ) (cs : List Call) (l : Limiter)
    → new (pos r) start ≡ some l
    → IsSteady n cs
    → 0 < length cs
    → 3 * r < n
    → r * (second + ((run cs (l, start)).1 - start) + length cs) < total cs * second
large_calls_overrun r n start cs l e steady some_call large =
    overrun_sum r n (length cs) (total cs) ((run cs (l, start)).1 - start) some_call large
      (omega (arith, run-steady n cs l start steady)) (total-steady n cs steady)
