-- ===== src/Http/Retry/Delay.antt =====
-- Bounds on the delays of a retry policy.
use native.Mathlib.Nat.{pow-suc}
use native.Mathlib.Numerals.{towards_suc}
use bapp_connectors.Base.{List, arith, refl, ℕ, ◌+◌, ◌≡◌, ◌≤◌}
use bapp_connectors.Base.Int.{negsuc, pos, scale, ℤ, ◌≤ℤ◌}
use bapp_connectors.Errors.{Exn, connector, exception, requests_error}
use bapp_connectors.Http.Retry.{
  BackoffStrategy, RetryPolicy, compute_delay, exponential, growth, linear, no_backoff,
  should_retry,
}

growth_mono : (b : BackoffStrategy) (n : ℕ) → growth b n ≤ growth b (n + 1)
unfolding growth
growth_mono no_backoff n = omega arith
growth_mono linear n = omega arith
growth_mono exponential n = simp towards_suc (rw pow-suc (omega arith))

scale_mono : (d : ℤ) (m n : ℕ) → pos 0 ≤ℤ d → m ≤ n → scale d m ≤ℤ scale d n
scale_mono (pos d) m n h k = grind arith
scale_mono (negsuc d) m n h k = absurd (omega arith)

scale_nonneg : (d : ℤ) (m : ℕ) → pos 0 ≤ℤ d → pos 0 ≤ℤ scale d m
scale_nonneg (pos d) m h = omega arith
scale_nonneg (negsuc d) m h = absurd (omega arith)

-- With delays that are not negative, the delay of an attempt is not negative, never passes the
-- maximum, and never shrinks from one attempt to the next, under every backoff strategy.
pub compute_delay_bounds :
    (p : RetryPolicy) (n : ℕ)
    → pos 0 ≤ℤ p.base_delay
    → pos 0 ≤ℤ p.max_delay
    → (pos 0 ≤ℤ compute_delay p n)
      × (compute_delay p n ≤ℤ p.max_delay)
      × (compute_delay p n ≤ℤ compute_delay p (n + 1))
unfolding compute_delay
compute_delay_bounds p n hb hm = ground (
  arith,
  growth_mono p.backoff n,
  scale_nonneg p.base_delay (growth p.backoff n) hb,
  scale_mono p.base_delay (growth p.backoff n) (growth p.backoff (n + 1)) hb,
)

-- Whatever status codes a policy lists as retryable or not retryable, `should_retry` decides alike.
pub should_retry_ignores_codes :
    (p : RetryPolicy) (retryable other : List ℕ) (attempt : ℕ) (error : Exn)
    → should_retry
        (record p { retryable_status_codes = retryable; non_retryable_status_codes = other })
        attempt
        error
      ≡ should_retry p attempt error
unfolding should_retry
should_retry_ignores_codes p retryable other attempt (connector e) = refl
should_retry_ignores_codes p retryable other attempt (requests_error c m) = refl
should_retry_ignores_codes p retryable other attempt (exception m) = refl
