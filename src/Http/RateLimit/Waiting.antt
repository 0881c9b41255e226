-- ===== src/Http/RateLimit/Waiting.antt =====
-- How long `wait` of core/http/rate_limit.py takes.
use bapp_connectors.Base.{
  Bool-cases, arith, false, inl, inr, refl, some, suc, true, zero, ℕ, ◌*◌, ◌-◌, ◌∙◌, ◌≡◌, ◌≤◌,
}
use bapp_connectors.Http.RateLimit.{RateLimiter, refill, round, take_token, token, wait}

granted_after :
    (now later : ℕ) (l : RateLimiter)
    → 1 ≤ l.burst
    → token ≤ (later - now) * l.rate
    → (round now l).0 ≡ false
    → (round later (round now l).1).0 ≡ true
unfolding round refill take_token
granted_after now later l h enough refused = ground arith

round_keeps_rate : (now : ℕ) (l : RateLimiter) → (round now l).1.rate ≡ l.rate
unfolding round refill take_token
round_keeps_rate now l = ground arith

module _ {ℓ} {W : Type ℓ} (monotonic : W → ℕ × W) (sleep : ℕ → ℕ → W → W) where
  wait_first :
      (fuel : ℕ) (l : RateLimiter) (w : W)
      → (round (monotonic w).0 l).0 ≡ true
      → wait monotonic sleep (suc fuel) l w ≡ some ((round (monotonic w).0 l).1, (monotonic w).1)
  unfolding wait
  wait_first fuel l w h = rw h refl

  wait_next :
      (fuel : ℕ) (l : RateLimiter) (w : W)
      → (round (monotonic w).0 l).0 ≡ false
      → wait monotonic sleep (suc fuel) l w
        ≡ wait monotonic sleep fuel (round (monotonic w).0 l).1 (sleep token l.rate (monotonic w).1)
  unfolding wait
  wait_next fuel l w h = rw h refl

  -- Where the burst is at least 1 and the sleep of `wait` lasts at least as long as it is asked to, two
  -- rounds are enough for `wait` to return, from any state of the limiter.
  pub wait_returns :
      (fuel : ℕ) (l : RateLimiter) (w : W)
      → 1 ≤ l.burst
      → 2 ≤ fuel
      → ((v : W)
          → token ≤ ((monotonic (sleep token l.rate (monotonic v).1)).0 - (monotonic v).0) * l.rate)
      → (l' : RateLimiter) × (w' : W) × (wait monotonic sleep fuel l w ≡ some (l', w'))
  wait_returns zero l w h f lasts = absurd (omega arith)
  wait_returns (suc zero) l w h f lasts = absurd (omega arith)
  wait_returns (suc (suc fuel)) l w h f lasts =
      let (now, w₁) = monotonic w in
      let w₂ = sleep token l.rate w₁ in
      elim (Bool-cases (round (monotonic w).0 l).0) [
        | inl first ↦ (_, _, wait_first (suc fuel) l w first)
        | inr refused ↦ (
          _,
          _,
          wait_next (suc fuel) l w refused
              ∙ wait_first fuel (round (monotonic w).0 l).1 w₂
                  (granted_after (monotonic w).0 (monotonic w₂).0 l h (lasts w) refused),
        )
      ]
