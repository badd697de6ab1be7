-- ===== src/Ratelimit/Bounds.antt =====
-- How much a limiter lets through (internal/ratelimit/ratelimit.go).
use native.Mathlib.Nat.{mul-le-mul_right}
use mathlib.Core.Path.{subst}
use ftp.Base.{
  ℕ, suc, ◌+◌, ◌-◌, ◌*◌, ◌≤◌, ◌<◌, List, [], ◌∷◌, ◌≡◌, refl, pos, some, ◌∙◌, arith, All, length,
}
use ftp.Ratelimit.{Limiter, second, take_bytes, Call, run, new}
use ftp.Ratelimit.Bucket.{take_bytes-Paid}

abbrev pub total : List Call → ℕ
total [] = 0
total (c ∷ cs) = c.bytes + total cs

-- Each call is for at most one second's worth.
abbrev pub AllWithin : ℕ → List Call → Type 0
AllWithin r = All (λ c. c.bytes ≤ r)

chain_sum :
    (b ts t t1 te last last1 last_e r k : ℕ)
    → b * second + t1 + last * r ≤ t + last1 * r + r
    → ts * second + te + last1 * r ≤ t1 + last_e * r + k * r
    → (b + ts) * second + te + last * r ≤ t + last_e * r + suc k * r
chain_sum b ts t t1 te last last1 last_e r k h g = grind arith

run-paid :
    (r : ℕ) (cs : List Call) (l : Limiter) (now : ℕ)
    → l.rate ≡ r
    → 0 < r
    → AllWithin r cs
    → l.last_update ≤ now
    → let (l', now') = run cs (l, now) in
      (l'.last_update ≤ now')
      × (total cs * second + l'.tokens + l.last_update * r
          ≤ l.tokens + l'.last_update * r + length cs * r)
unfolding run
run-paid r [] l now e positive small h = (h, omega arith)
run-paid r (c ∷ cs) l now e positive (small, smalls) h =
    let p =
      take_bytes-Paid l c.bytes (now + c.gap) c.late (rw e positive) (rw e small) (omega arith) in
    let s1 = take_bytes l c.bytes (now + c.gap) c.late in
    let ih = run-paid r cs s1.0 s1.1 (p.rate_same ∙ e) positive smalls p.in_time in
    (
      ih.0,
      chain_sum c.bytes (total cs) l.tokens s1.0.tokens _ l.last_update s1.0.last_update _ r
          (length cs)
          (subst
            (λ q.
              c.bytes * second + s1.0.tokens + l.last_update * q
              ≤ l.tokens + s1.0.last_update * q + q)
            e p.paid)
          ih.1,
    )

abbrev fresh : ℕ → ℕ → Limiter
fresh r start = record { rate = r; burst = r * second; tokens = r * second; last_update = start }

new-fresh : (r start : ℕ) → 0 < r → new (pos r) start ≡ some (fresh r start)
unfolding new
new-fresh r start h = ground arith

times_three : (r a b c : ℕ) → r * (a + b + c) ≡ r * a + b * r + c * r
times_three r a b c = grind arith

two_times : (a b r : ℕ) → (a + b) * r ≡ a * r + b * r
two_times a b r = grind arith

past : (a b r : ℕ) → b * r ≤ a * r + (b - a) * r
past a b r =
    omega (arith, mul-le-mul_right {m = b} {n = a + (b - a)} r (omega arith), two_times a (b - a) r)

final_sum :
    (b te start last_e end r k : ℕ)
    → last_e ≤ end
    → b + te + start * r ≤ r * second + last_e * r + k * r
    → b ≤ r * (second + (end - start) + k)
final_sum b te start last_e end r k h g = omega (
  arith,
  times_three r second (end - start) k,
  mul-le-mul_right {m = last_e} {n = end} r h,
  past start end r,
)

fresh-limited :
    (r start : ℕ) (cs : List Call)
    → 0 < r
    → AllWithin r cs
    → total cs * second ≤ r * (second + ((run cs (fresh r start, start)).1 - start) + length cs)
fresh-limited r start cs h small =
    let s = run cs (fresh r start, start) in
    let paid = run-paid r cs (fresh r start) start refl h small (omega arith) in
    final_sum (total cs * second) s.0.tokens start s.0.last_update s.1 r (length cs) paid.0 paid.1

-- The limiter that `New` makes, with a positive limit, at any time; then calls for at most a second's
-- worth of bytes each, any time apart, with sleeps that end any time late. The bytes that were let
-- through are at most the limit for the time that passed and one second more, and one nanosecond's
-- worth for each call.
pub run-limited :
    (r start : ℕ) (cs : List Call) (l : Limiter)
    → 0 < r
    → AllWithin r cs
    → new (pos r) start ≡ some l
    → total cs * second ≤ r * (second + ((run cs (l, start)).1 - start) + length cs)
unfolding new
run-limited r start cs l h small e =
    let same : fresh r start ≡ l = cc (new-fresh r start h, e) in
    subst (λ m. total cs * second ≤ r * (second + ((run cs (m, start)).1 - start) + length cs)) same
      (fresh-limited r start cs h small)
