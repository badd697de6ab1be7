-- ===== src/Ratelimit/Tests.antt =====
-- The limiter (internal/ratelimit/ratelimit.go) at concrete inputs.
use ftp.Base.{
  ◌+◌, ◌-◌, ◌*◌, ◌≤◌, ◌<◌, List, [], ◌∷◌, ◌≡◌, refl, arith, false, Bytes, text, length, All,
}
use ftp.Ratelimit.{Limiter, Call, second, new, run, Written, write, write_chunk}
use ftp.Ratelimit.Bounds.{total, run-limited}
use ftp.Ratelimit.Overrun.{large_calls_overrun}
use ftp.Ratelimit.Chunks.{sum, write_whole}

abbrev limiter : Limiter
limiter = record { rate = 100; burst = 100 * second; tokens = 100 * second; last_update = 5 }

-- Two calls within the limit of 100 bytes a second, and two above three times as many.
abbrev calls : List Call
calls = record { bytes = 80; gap = 0; late = 3 } ∷ record { bytes = 90; gap = 7; late = 0 } ∷ []

abbrev large_calls : List Call
large_calls =
    record { bytes = 301; gap = 0; late = 0 } ∷ record { bytes = 301; gap = 0; late = 0 } ∷ []

run-limited_example :
    total calls * second ≤ 100 * (second + ((run calls (limiter, 5)).1 - 5) + length calls)
unfolding new
run-limited_example =
    run-limited 100 5 calls limiter (omega arith) (omega arith, (omega arith, tt)) refl

large_calls_overrun_example :
    100 * (second + ((run large_calls (limiter, 5)).1 - 5) + length large_calls)
    < total large_calls * second
unfolding new
large_calls_overrun_example =
    large_calls_overrun 100 301 5 large_calls limiter refl
      ((refl, refl, refl), ((refl, refl, refl), tt)) (omega arith) (omega arith)

abbrev sink : Bytes → Written
sink p = record { count = length p; failed = false }

write_whole_example :
    let r = write sink (text "abc") in
    (r.1 ≡ length (text "abc")) × (sum r.0 ≡ length (text "abc")) × All (λ n. n ≤ write_chunk) r.0
write_whole_example = write_whole sink (λ p. (refl, refl)) (text "abc")
