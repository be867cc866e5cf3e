-- ===== src/Export/Http/Backoff.antt =====
-- How long the HTTP exporter may wait.
use streamsight_agent.Base.{
  ℕ, zero, suc, ◌-◌, ◌*◌, ◌^◌, ◌≤◌, ◌≡◌, refl, true, arith, min, ℤ, pos, negsuc, is_neg, ltb,
  if◌then◌else◌,
}
use streamsight_agent.Export.Http.{
  second, int64, max_backoff, max_retry_after, clamp_retry_after, RetryAfter, absent, seconds, date,
  parse_retry_after, backoff_ceiling, backoff, Surroundings, delay_of, retry_after_of, response,
}

ceiling_cases :
    (v : ℤ)
    → (elim v [
      | pos zero ↦ max_backoff
      | pos (suc c) ↦ if ltb max_backoff (suc c) then max_backoff else suc c
      | negsuc c ↦ max_backoff
    ])
      ≤ max_backoff
ceiling_cases (pos zero) = omega arith
ceiling_cases (pos (suc c)) = ground arith
ceiling_cases (negsuc c) = omega arith

backoff_ceiling-le : (base attempt : ℕ) → backoff_ceiling base attempt ≤ max_backoff
unfolding backoff_ceiling
backoff_ceiling-le base attempt = ceiling_cases (int64 (base * 2 ^ (attempt - 1)))

-- No backoff is longer than 30 seconds, for any base delay and any number of attempts, though the
-- shift may overflow.
pub backoff-le : (base attempt draw : ℕ) → backoff base attempt draw ≤ max_backoff
unfolding backoff
backoff-le base attempt draw = omega (arith, backoff_ceiling-le base attempt)

clamp_retry_after-le : (d : ℤ) (n : ℕ) → clamp_retry_after d ≡ pos n → n ≤ max_retry_after
unfolding clamp_retry_after
clamp_retry_after-le (pos d) n h = ground arith
clamp_retry_after-le (negsuc d) n h = absurd (cc)

-- Whatever the header says, no positive delay that is taken from it is longer than five minutes.
parse_retry_after-le : (h : RetryAfter) (n : ℕ) → parse_retry_after h ≡ pos n → n ≤ max_retry_after
unfolding parse_retry_after
parse_retry_after-le absent n e = ground arith
parse_retry_after-le (seconds (pos zero)) n e = ground arith
parse_retry_after-le (seconds (pos (suc s))) n e = clamp_retry_after-le (int64 (suc s * second)) n e
parse_retry_after-le (seconds (negsuc s)) n e = ground arith
parse_retry_after-le (date (pos zero)) n e = ground arith
parse_retry_after-le (date (pos (suc d))) n e = clamp_retry_after-le (pos (suc d)) n e
parse_retry_after-le (date (negsuc d)) n e = ground arith

-- A Retry-After of at most 9223372036 seconds, whose nanoseconds fit into 63 bits, is honoured up
-- to five minutes.
pub parse_retry_after-seconds :
    (s : ℕ)
    → s ≤ 9223372036
    → parse_retry_after (seconds (pos s)) ≡ pos (min (s * second) max_retry_after)
unfolding parse_retry_after clamp_retry_after
parse_retry_after-seconds zero le = refl
parse_retry_after-seconds (suc s) le = ground arith

delay_of_neg-le :
    (base attempt : ℕ) (w : Surroundings) (v : ℤ)
    → is_neg v ≡ true
    → delay_of base w attempt v ≤ max_backoff
unfolding delay_of
delay_of_neg-le base attempt w (pos n) h = absurd (cc)
delay_of_neg-le base attempt w (negsuc n) h = backoff-le base attempt (w.draw attempt)

clamp_retry_after-is_neg : (v : ℤ) → is_neg v ≡ true → is_neg (clamp_retry_after v) ≡ true
unfolding clamp_retry_after
clamp_retry_after-is_neg (pos n) h = absurd (cc)
clamp_retry_after-is_neg (negsuc n) h = refl

overflows : (s : ℕ) → 9223372037 ≤ s → s ≤ 18446744073 → is_neg (int64 (s * second)) ≡ true
overflows s lo hi = ground arith

-- For a Retry-After of 9223372037 to 18446744073 seconds the product with a second overflows to a
-- negative duration, so the delay before the retry is the ordinary backoff of at most 30 seconds,
-- not the five minutes of the clamp.
pub parse_retry_after-overflow :
    (s base attempt : ℕ) (w : Surroundings) (code : ℕ)
    → 9223372037 ≤ s
    → s ≤ 18446744073
    → delay_of base w attempt (retry_after_of (response code (seconds (pos s)))) ≤ max_backoff
unfolding parse_retry_after retry_after_of
parse_retry_after-overflow zero base attempt w code lo hi = absurd (omega arith)
parse_retry_after-overflow (suc s) base attempt w code lo hi =
    delay_of_neg-le base attempt w (clamp_retry_after (int64 (suc s * second)))
      (clamp_retry_after-is_neg (int64 (suc s * second)) (overflows (suc s) lo hi))
