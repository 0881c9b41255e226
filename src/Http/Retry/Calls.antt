-- ===== src/Http/Retry/Calls.antt =====
-- How often the retry loop of core/http/retry.py calls its function.
use native.Mathlib.Numerals.{add-one}
use bapp_connectors.Base.{
  Option, Option-cases, arith, false, inl, inr, none, refl, some, suc, true, zero, ℕ, ◌+◌, ◌<◌, ◌≡◌,
  ◌≤◌,
}
use bapp_connectors.Base.Int.{ℤ}
use bapp_connectors.Errors.{Exn}
use bapp_connectors.Effect.{Action, Outcome, ok, raise}
use bapp_connectors.Http.Retry.{
  RetryPolicy, asked_wait, attempts, execute_with_retry, is_retryable_exception, pause,
  should_retry,
}

module _ {ℓ κ} {W : Type ℓ} {A : Type κ} where
  -- The function with a counter beside the state.
  abbrev pub counted : Action W A → Action (ℕ × W) A
  counted func (c, w) = let (r, w') = func w in (r, (c + 1, w'))

abbrev pub beside {ℓ} : {W : Type ℓ} → (ℤ → W → W) → ℤ → ℕ × W → ℕ × W
beside sleep d (c, w) = (c, sleep d w)

module _ {ℓ κ} {W : Type ℓ} {A : Type κ} (sleep : ℤ → W → W) (p : RetryPolicy)
    (func : Action W A) where
  pause_keeps : (d : ℤ) (s : ℕ × W) → (pause (beside sleep) d s).0 ≡ s.0
  unfolding pause
  pause_keeps d s = ground arith

  -- What one round adds to the count, given that the later rounds add between 0 and `k`.
  round_calls :
      (k n : ℕ) (last : Option Exn) (c : ℕ) (w : W) (r : Outcome A × W)
      → func w ≡ r
      → ((x : Exn) (s : ℕ × W)
          → let t = (attempts (beside sleep) p (counted func) k (n + 1) (some x) s).1.0 in
            (s.0 ≤ t) × (t ≤ s.0 + k))
      → let t = (attempts (beside sleep) p (counted func) (suc k) n last (c, w)).1.0 in
        (c + 1 ≤ t) × (t ≤ c + suc k)
  unfolding attempts
  round_calls k n last c w (ok a, w') e later = ground arith
  round_calls k n last c w (raise x, w') e later =
      let d = (should_retry p n x).1 in
      let s : ℕ × W = (c + 1, w') in
      ground (arith, later x (pause (beside sleep) d s), pause_keeps d s)

  attempts_calls :
      (k n : ℕ) (last : Option Exn) (s : ℕ × W)
      → let t = (attempts (beside sleep) p (counted func) k n last s).1.0 in
        (s.0 ≤ t) × (t ≤ s.0 + k)
  unfolding attempts
  attempts_calls zero n last s = omega arith
  attempts_calls (suc k) n last (c, w) =
      omega
        (arith, round_calls k n last c w (func w) refl (λ x s. attempts_calls k (n + 1) (some x) s))

  -- The function is called at least once and at most `max_retries + 1` times.
  pub execute_with_retry_calls :
      (w : W)
      → let calls = (execute_with_retry (beside sleep) (some p) (counted func) (0, w)).1.0 in
        (1 ≤ calls) × (calls ≤ p.max_retries + 1)
  unfolding execute_with_retry
  execute_with_retry_calls w = rw add-one (
      omega (
        arith,
        round_calls p.max_retries 0 none 0 w (func w) refl
            (λ x s. attempts_calls p.max_retries (0 + 1) (some x) s),
      ))

  stays_retryable :
      (x : Exn) (n : ℕ)
      → is_retryable_exception p x ≡ true
      → n < p.max_retries
      → (should_retry p n x).0 ≡ true
  unfolding should_retry
  stays_retryable x n r h = elim (Option-cases (asked_wait x)) [
    | inl q ↦ ground arith
    | inr (t, q) ↦ ground arith
  ]

  stops_at_end : (x : Exn) (n : ℕ) → n ≡ p.max_retries → (should_retry p n x).0 ≡ false
  unfolding should_retry
  stops_at_end x n h = ground arith

  module _ (x : Exn) (fails : (w : W) → (func w).0 ≡ raise x)
      (r : is_retryable_exception p x ≡ true) where
    failing_step :
        (k n c : ℕ) (last : Option Exn) (w : W)
        → n < p.max_retries
        → let d = (should_retry p n x).1 in
          attempts (beside sleep) p (counted func) (suc k) n last (c, w)
          ≡ attempts
              (beside sleep)
              p
              (counted func)
              k
              (n + 1)
              (some x)
              (pause (beside sleep) d (c + 1, (func w).1))
    unfolding attempts
    failing_step k n c last w h =
        rw (fails w, attempts) (rw (stays_retryable x n r h, attempts) refl)

    failing_end :
        (n c : ℕ) (last : Option Exn) (w : W)
        → n ≡ p.max_retries
        → attempts (beside sleep) p (counted func) 1 n last (c, w) ≡ (raise x, (c + 1, (func w).1))
    unfolding attempts
    failing_end n c last w h = rw (fails w, attempts) (rw (stops_at_end x n h, attempts) refl)

    failing_calls :
        (k n : ℕ) (last : Option Exn) (s : ℕ × W)
        → n + k ≡ p.max_retries
        → let t = attempts (beside sleep) p (counted func) (suc k) n last s in
          (t.0 ≡ raise x) × (t.1.0 ≡ s.0 + suc k)
    failing_calls zero n last (c, w) h =
        rw (failing_end n c last w (omega arith)) (refl, omega arith)
    failing_calls (suc k) n last (c, w) h =
        let d = (should_retry p n x).1 in
        let s : ℕ × W = (c + 1, (func w).1) in
        let later = failing_calls k (n + 1) (some x) (pause (beside sleep) d s) (omega arith) in
        rw (failing_step (suc k) n c last w (omega arith))
          (later.0, omega (arith, later.1, pause_keeps d s))

    -- A function that keeps raising an error that the policy retries is called exactly
    -- `max_retries + 1` times, and its error is what the loop raises.
    pub execute_with_retry_exhausts :
        (w : W)
        → let t = execute_with_retry (beside sleep) (some p) (counted func) (0, w) in
          (t.0 ≡ raise x) × (t.1.0 ≡ p.max_retries + 1)
    unfolding execute_with_retry
    execute_with_retry_exhausts w =
        let t = failing_calls p.max_retries 0 none (0, w) (omega arith) in
        rw add-one (t.0, omega (arith, t.1))
