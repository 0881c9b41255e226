-- ===== src/Http/RateLimit.antt =====
-- core/http/rate_limit.py: the token bucket. Time is whole milliseconds and a rate is in thousandths
-- of a request per second, so a token is 1000000 units and every amount is exact. A round stands for the
-- code under the lock; the threads that share a limiter interleave by whole rounds. A sleep takes its
-- milliseconds as a fraction. The loops take fuel; `none` means that it ran out.
pub mod Grants
pub mod Waiting
pub mod Tests
use bapp_connectors.Base.{
  Bool, Option, false, if◌then◌else◌, leb, max, min, none, some, suc, true, zero, ℕ, ◌*◌, ◌+◌, ◌-◌,
}

abbrev pub token : ℕ
token = 1000000

pub record RateLimiter : Type 0 where
  pub rate : ℕ
  pub burst : ℕ
  pub tokens : ℕ
  pub last_refill : ℕ

-- `none` where the constructor raises a ValueError
unfoldable pub new_limiter : ℕ → ℕ → ℕ → Option RateLimiter
new_limiter rate burst now =
    if leb rate 0
    then none
    else some (record {
      rate = rate;
      burst = max burst 1;
      tokens = max burst 1 * token;
      last_refill = now;
    })

unfoldable pub refill : ℕ → RateLimiter → RateLimiter
refill now l = record l {
  tokens = min (l.burst * token) (l.tokens + (now - l.last_refill) * l.rate);
  last_refill = now;
}

take_token : RateLimiter → Bool × RateLimiter
take_token l =
    if leb token l.tokens then (true, record l { tokens = l.tokens - token }) else (false, l)

-- the code under the lock
unfoldable pub round : ℕ → RateLimiter → Bool × RateLimiter
unfolding refill take_token
round now l = take_token (refill now l)

module _ {ℓ} {W : Type ℓ} (monotonic : W → ℕ × W) (sleep : ℕ → ℕ → W → W) where
  unfoldable pub wait : ℕ → RateLimiter → W → Option (RateLimiter × W)
  unfolding round
  wait zero l w = none
  wait (suc fuel) l w =
      let (now, w₁) = monotonic w in
      let (granted, l') = round now l in
      let rest = wait fuel l' (sleep token l.rate w₁) in if granted then some (l', w₁) else rest

  -- `time.sleep(min(1.0 / self.rate, remaining))`
  sleep_at_most : ℕ → ℕ → W → W
  sleep_at_most rate remaining w =
      if leb token (remaining * rate) then sleep token rate w else sleep remaining 1 w

  acquire_until : ℕ → ℕ → RateLimiter → W → Option (Bool × (RateLimiter × W))
  unfolding round sleep_at_most
  acquire_until zero deadline l w = none
  acquire_until (suc fuel) deadline l w =
      let (now, w₁) = monotonic w in
      let (granted, l') = round now l in
      let (later, w₂) = monotonic w₁ in
      let rest = acquire_until fuel deadline l' (sleep_at_most l.rate (deadline - later) w₂) in
      if granted
      then some (true, (l', w₁))
      else if leb deadline later
      then some (false, (l', w₂))
      else rest

  unfoldable pub acquire : ℕ → Option ℕ → RateLimiter → W → Option (Bool × (RateLimiter × W))
  unfolding acquire_until round
  acquire fuel none l w =
      let (now, w₁) = monotonic w in let (granted, l') = round now l in some (granted, (l', w₁))
  acquire fuel (some seconds) l w =
      let (start, w₁) = monotonic w in acquire_until fuel (start + seconds) l w₁
