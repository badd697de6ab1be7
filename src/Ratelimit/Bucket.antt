-- ===== src/Ratelimit/Bucket.antt =====
-- What one call of `take` costs (internal/ratelimit/ratelimit.go).
use native.Mathlib.Nat.{div-add-mod, mod-lt, mul_comm}
use ftp.Base.{
  ℕ, ◌+◌, ◌-◌, ◌*◌, ◌/◌, ◌≤◌, ◌<◌, ◌≡◌, refl, ◌∙◌, true, false, arith, leb, ◌==◌, if◌then◌else◌,
  Bool,
}
use ftp.Ratelimit.{Limiter, second, refill, wait_time, spend, smaller, take_bytes}

between : (a b r : ℕ) → a ≤ b → (b - a) * r + a * r ≡ b * r
between a b r h = grind arith

-- A quotient by the rate loses less than the rate.
quotient_lt : (x r : ℕ) → 0 < r → x < x / r * r + r
quotient_lt x r h = grind (arith, div-add-mod, mod-lt)

quotient_le : (x r s : ℕ) → 0 < r → x ≤ s * r → x / r ≤ s
quotient_le x r s h le = grind (arith, div-add-mod, mod-lt)

smaller_left : (a b : ℕ) → a ≤ b → smaller a b ≡ a
smaller_left a b h = ground arith

pub smaller_le : (a b : ℕ) → (smaller a b ≤ a) × (smaller a b ≤ b)
smaller_le a b = ground arith

-- What a refill brings is bounded by the time that passed.
refill_le :
    (l : Limiter) (now : ℕ)
    → l.last_update ≤ now
    → (refill l now).tokens + l.last_update * l.rate ≤ l.tokens + now * l.rate
unfolding refill
refill_le l now h = omega (
  arith,
  between l.last_update now l.rate h,
  smaller_le (l.tokens + (now - l.last_update) * l.rate) l.burst,
)

refill_fields :
    (l : Limiter) (now : ℕ)
    → ((refill l now).rate ≡ l.rate)
      × ((refill l now).burst ≡ l.burst)
      × ((refill l now).last_update ≡ now)
unfolding refill
refill_fields l now = (refl, refl, refl)

-- A bucket takes no more tokens than it held and the time brought, but for one nanosecond's.
pub record Paid (l : Limiter) (need : ℕ) (r : Limiter × ℕ) : Type 0 where
  pub rate_same : r.0.rate ≡ l.rate
  pub burst_same : r.0.burst ≡ l.burst
  pub in_time : r.0.last_update ≤ r.1
  pub paid :
      need + r.0.tokens + l.last_update * l.rate ≤ l.tokens + r.0.last_update * l.rate + l.rate

-- With enough tokens after the refill.
spend_at_once :
    (l : Limiter) (need now : ℕ)
    → l.last_update ≤ now
    → leb need (refill l now).tokens ≡ true
    → Paid l need (spend (refill l now) need, now)
spend_at_once l need now h e =
    let (fr, fb, fl) = refill_fields l now in
    record {
      rate_same = fr;
      burst_same = fb;
      in_time = omega arith;
      paid = ground (arith, refill_le l now h);
    }

slept_enough :
    (l : Limiter) (need : ℕ)
    → 0 < l.rate
    → need ≤ l.rate * second
    → need ≤ l.tokens + wait_time l need * l.rate + l.rate
unfolding wait_time
slept_enough l need positive small =
    let q = (need - l.tokens) / l.rate in
    let capped : q ≤ second =
      quotient_le (need - l.tokens) l.rate second positive
        (omega (arith, mul_comm l.rate second)) in
    let full : smaller q second ≡ q = smaller_left q second capped in
    rw full (omega (arith, quotient_lt (need - l.tokens) l.rate positive))

three_times : (a b c r : ℕ) → (a + b + c) * r ≡ a * r + b * r + c * r
three_times a b c r = grind arith

sleep_sum :
    (need t f g last now w late r : ℕ)
    → f + last * r ≤ t + now * r
    → g + now * r ≤ f + (now + w + late) * r
    → need ≤ f + w * r + r
    → need + (if leb need g then g - need else 0) + last * r ≤ t + (now + w + late) * r + r
sleep_sum need t f g last now w late r a b c = ground (arith, three_times now w late r)

-- Without enough tokens: after a sleep.
spend_after_sleep :
    (l : Limiter) (need now late : ℕ)
    → 0 < l.rate
    → need ≤ l.rate * second
    → l.last_update ≤ now
    → let woken = now + wait_time (refill l now) need + late in
      Paid l need (spend (refill (refill l now) woken) need, woken)
unfolding refill
spend_after_sleep l need now late positive small h =
    let f = refill l now in
    let w = wait_time f need in
    let woken = now + w + late in
    let (fr, fb, fl) = refill_fields l now in
    let (gr, gb, gl) = refill_fields f woken in
    record {
      rate_same = gr ∙ fr;
      burst_same = gb ∙ fb;
      in_time = omega arith;
      paid = rw gl (
          sleep_sum need l.tokens f.tokens (refill f woken).tokens l.last_update now w late l.rate
            (refill_le l now h) (rw (fl, fr) at (refill_le f woken (omega arith)))
            (rw fr at (slept_enough f need (rw fr positive) (rw fr small))));
    }

pub three_ways :
    {A : Type 0} (P : A → Type 0) (a b : Bool) (x y z : A)
    → (a ≡ true → P x)
    → (b ≡ true → P y)
    → P z
    → P (if a then x else if b then y else z)
three_ways P true b x y z hx hy hz = hx refl
three_ways P false true x y z hx hy hz = hy refl
three_ways P false false x y z hx hy hz = hz

pub take_bytes-Paid :
    (l : Limiter) (n now late : ℕ)
    → 0 < l.rate
    → n ≤ l.rate
    → l.last_update ≤ now
    → Paid l (n * second) (take_bytes l n now late)
unfolding take_bytes
take_bytes-Paid l n now late positive small h =
    three_ways (Paid l (n * second)) (n == 0) (leb (n * second) (refill l now).tokens) _ _ _
      (λ e. record { rate_same = refl; burst_same = refl; in_time = h; paid = ground arith })
      (spend_at_once l (n * second) now h)
      (spend_after_sleep l (n * second) now late positive (omega arith) h)
