-- ===== src/Http/Retry/Attempts.antt =====
-- The retry loop of core/http/retry.py against a relation that says which runs it may make.
use native.Mathlib.Numerals.{add-one}
use bapp_connectors.Base.{
  Bool, Bool-cases, Option, Option-cases, ap, arith, false, inl, inr, leb, leb→le, none, refl, some,
  suc, sym, true, zero, ℕ, ◌+◌, ◌<◌, ◌↔◌, ◌∙◌, ◌≡◌, ◌≤◌, ◌⊎◌,
}
use bapp_connectors.Base.Int.{min_ℤ, ℤ}
use bapp_connectors.Errors.{Exn}
use bapp_connectors.Effect.{Action, Outcome, ok, raise}
use bapp_connectors.Http.Retry.{
  RetryPolicy, asked_wait, attempts, compute_delay, execute_with_retry, is_retryable_exception,
  pause, should_retry,
}

-- An error that the policy may retry, with the wait before the next attempt: the wait that a rate
-- limit asks for, cut to the maximum, or else the backoff delay of a retryable error.
pub data Retries (p : RetryPolicy) (attempt : ℕ) (e : Exn) (d : ℤ) : Type 0 where
  asked : (t : ℤ) → asked_wait e ≡ some t → d ≡ min_ℤ t p.max_delay → Retries p attempt e d
  backs_off :
      asked_wait e ≡ none
      → is_retryable_exception p e ≡ true
      → d ≡ compute_delay p attempt
      → Retries p attempt e d

should_retry_yes :
    (p : RetryPolicy) (n : ℕ) (e : Exn) (d : ℤ)
    → should_retry p n e ≡ (true, d)
    → (n < p.max_retries) × Retries p n e d
unfolding should_retry
should_retry_yes p n e d h = elim (Option-cases (asked_wait e)) [
  | inr (t, a) ↦ (ground arith, asked t a (ground arith))
  | inl a ↦ (ground arith, backs_off a (ground arith) (ground arith))
]

should_retry_of_Retries :
    (p : RetryPolicy) (n : ℕ) (e : Exn) (d : ℤ)
    → n < p.max_retries
    → Retries p n e d
    → should_retry p n e ≡ (true, d)
unfolding should_retry
should_retry_of_Retries p n e d h (asked t a q) = ground arith
should_retry_of_Retries p n e d h (backs_off a r q) = ground arith

should_retry_past :
    (p : RetryPolicy) (n : ℕ) (e : Exn) → p.max_retries ≤ n → (should_retry p n e).0 ≡ false
unfolding should_retry
should_retry_past p n e h = ground arith

module _ {ℓ κ} {W : Type ℓ} {A : Type κ} (sleep : ℤ → W → W) (p : RetryPolicy)
    (func : Action W A) where
  -- The runs of the calls from attempt `n` on: a call that returns ends the run; a call that raises
  -- ends it with its own error when no retry is left or the error is not for retrying; otherwise the
  -- run waits and goes on with the next attempt.
  pub data Run : ℕ → W → Outcome A × W → Type (ℓ ⊔ κ) where
    returned :
        {n : ℕ} {w : W} {r : Outcome A × W} (a : A) (w' : W)
        → func w ≡ (ok a, w')
        → r ≡ (ok a, w')
        → Run n w r
    gave_up :
        {n : ℕ} {w : W} {r : Outcome A × W} (e : Exn) (w' : W)
        → func w ≡ (raise e, w')
        → (p.max_retries ≤ n) ⊎ ((d : ℤ) → ¬ Retries p n e d)
        → r ≡ (raise e, w')
        → Run n w r
    again :
        {n : ℕ} {w : W} {r : Outcome A × W} (e : Exn) (w' : W) (d : ℤ)
        → func w ≡ (raise e, w')
        → n < p.max_retries
        → Retries p n e d
        → Run (n + 1) (pause sleep d w') r
        → Run n w r

  module _ (k n : ℕ) (last : Option Exn) (w w' : W) where
    attempts_ok :
        (a : A) → func w ≡ (ok a, w') → attempts sleep p func (suc k) n last w ≡ (ok a, w')
    unfolding attempts
    attempts_ok a e = ground arith

    attempts_stop :
        (x : Exn)
        → func w ≡ (raise x, w')
        → (should_retry p n x).0 ≡ false
        → attempts sleep p func (suc k) n last w ≡ (raise x, w')
    unfolding attempts
    attempts_stop x e h = ground arith

    attempts_again :
        (x : Exn) (d : ℤ)
        → func w ≡ (raise x, w')
        → should_retry p n x ≡ (true, d)
        → attempts sleep p func (suc k) n last w
          ≡ attempts sleep p func k (n + 1) (some x) (pause sleep d w')
    unfolding attempts
    attempts_again x d e h = ground arith

  stops :
      (n : ℕ) (x : Exn)
      → (should_retry p n x).0 ≡ false
      → (p.max_retries ≤ n) ⊎ ((d : ℤ) → ¬ Retries p n x d)
  stops n x h = elim (Bool-cases (leb p.max_retries n)) [
    | inl past ↦ inl (leb→le _ _ past)
    | inr early ↦ inr (λ d r. cc (should_retry_of_Retries p n x d (ground arith) r))
  ]

  -- One round, given the runs of the rounds after it.
  module _ (k n : ℕ) (last : Option Exn) (w : W) where
    round_refused :
        (x : Exn) (w' : W) (s : Bool × ℤ)
        → func w ≡ (raise x, w')
        → should_retry p n x ≡ s
        → (n < p.max_retries
            → (d : ℤ)
            → Run
                (n + 1)
                (pause sleep d w')
                (attempts sleep p func k (n + 1) (some x) (pause sleep d w')))
        → Run n w (attempts sleep p func (suc k) n last w)
    round_refused x w' (false, d) e q later =
        let h = ap (λ s. s.0) q in gave_up x w' e (stops n x h) (attempts_stop k n last w w' x e h)
    round_refused x w' (true, d) e q later =
        let (early, r) = should_retry_yes p n x d q in
        again x w' d e early r (rw (attempts_again k n last w w' x d e q) (later early d))

    round-Run :
        (r : Outcome A × W)
        → func w ≡ r
        → (n < p.max_retries
            → (x : Exn) (w'' : W) → Run (n + 1) w'' (attempts sleep p func k (n + 1) (some x) w''))
        → Run n w (attempts sleep p func (suc k) n last w)
    round-Run (ok a, w') e later = returned a w' e (attempts_ok k n last w w' a e)
    round-Run (raise x, w') e later =
        round_refused x w' (should_retry p n x) e refl (λ early d. later early x (pause sleep d w'))

  attempts-Run :
      (k n : ℕ) (last : Option Exn) (w : W)
      → n + k ≡ p.max_retries
      → Run n w (attempts sleep p func (suc k) n last w)
  attempts-Run zero n last w h =
      round-Run zero n last w (func w) refl (λ early. absurd (omega arith))
  attempts-Run (suc k) n last w h =
      round-Run (suc k) n last w (func w) refl
        (λ early x w''. attempts-Run k (n + 1) (some x) w'' (omega arith))

  refused :
      (n : ℕ) (x : Exn)
      → (p.max_retries ≤ n) ⊎ ((d : ℤ) → ¬ Retries p n x d)
      → (should_retry p n x).0 ≡ false
  refused n x (inl past) = should_retry_past p n x past
  refused n x (inr none_allowed) = by_answer (should_retry p n x) refl
    where
      by_answer : (s : Bool × ℤ) → should_retry p n x ≡ s → (should_retry p n x).0 ≡ false
      by_answer (false, d) e = ap (λ s. s.0) e
      by_answer (true, d) e = absurd (none_allowed d ((should_retry_yes p n x d e).1))

  Run-attempts :
      (k : ℕ) (last : Option Exn) {n : ℕ} {w : W} {r : Outcome A × W}
      → n + k ≡ p.max_retries
      → Run n w r
      → attempts sleep p func (suc k) n last w ≡ r
  Run-attempts k last {n} {w} h (returned a w' e q) = attempts_ok k n last w w' a e ∙ sym q
  Run-attempts k last {n} {w} h (gave_up x w' e g q) =
      attempts_stop k n last w w' x e (refused n x g) ∙ sym q
  Run-attempts zero last h (again x w' d e early a rest) = absurd (omega arith)
  Run-attempts (suc k) last {n} {w} h (again x w' d e early a rest) =
      attempts_again (suc k) n last w w' x d e (should_retry_of_Retries p n x d early a)
      ∙ Run-attempts k (some x) (omega arith) rest

  -- Under a policy the loop ends, and it ends exactly as the run from the first attempt that the
  -- policy allows: each retried error is one that may be retried, with at most `max_retries` retries.
  pub execute_with_retry_iff :
      (w : W) (r : Outcome A × W) → Run 0 w r ↔ (execute_with_retry sleep (some p) func w ≡ r)
  unfolding execute_with_retry
  execute_with_retry_iff w r = (
    λ run. rw add-one (Run-attempts p.max_retries none (omega arith) run),
    λ e. rw (← e) (rw add-one (attempts-Run p.max_retries 0 none w (omega arith))),
  )

module _ {ℓ κ} {W : Type ℓ} {A : Type κ} (sleep : ℤ → W → W) (func : Action W A) (w : W) where
  -- A first call that raises what may not be retried is the whole run.
  pub execute_with_retry_fatal :
      (policy : Option RetryPolicy) (x : Exn)
      → (func w).0 ≡ raise x
      → ((p : RetryPolicy) (d : ℤ) → ¬ Retries p 0 x d)
      → execute_with_retry sleep policy func w ≡ func w
  unfolding execute_with_retry
  execute_with_retry_fatal none x q h = refl
  execute_with_retry_fatal (some p) x q h =
      let e : func w ≡ (raise x, (func w).1) = cc in
      (execute_with_retry_iff sleep p func w (func w)).0 (gave_up x (func w).1 e (inr (h p)) e)

  -- A first call that returns is the whole run.
  pub execute_with_retry_returns :
      (policy : Option RetryPolicy) (a : A)
      → (func w).0 ≡ ok a
      → execute_with_retry sleep policy func w ≡ func w
  unfolding execute_with_retry
  execute_with_retry_returns none a q = refl
  execute_with_retry_returns (some p) a q =
      let e : func w ≡ (ok a, (func w).1) = cc in
      (execute_with_retry_iff sleep p func w (func w)).0 (returned a (func w).1 e e)
