-- ===== src/Http/Retry.antt =====
-- core/http/retry.py: retry policies and the retry loop. Delays are whole milliseconds, and so is a
-- rate limit's `retry_after`, which a server may send negative. `time.sleep` is an argument.
pub mod Delay
pub mod Attempts
pub mod Calls
pub mod Tests
use bapp_connectors.Base.{
  Bool, List, Option, [], false, if◌then◌else◌, leb, nat_eq, none, not, some, suc, true, zero, ℕ,
  ◌+◌, ◌^◌, ◌||◌, ◌∷◌,
}
use bapp_connectors.Base.Int.{is_nonzero, ltb_ℤ, min_ℤ, pos, scale, ℤ}
use bapp_connectors.Errors.{
  ErrorClass, Exn, RequestsClass, connection_error, connector, exception, rate_limit_error,
  read_timeout, requests_error, requests_subclass, timeout,
}
use bapp_connectors.Effect.{Action, ok, raise}

-- `BackoffStrategy` of core/types.py
pub data BackoffStrategy : Type 0 where
  no_backoff linear exponential : BackoffStrategy

pub record RetryPolicy : Type 0 where
  pub max_retries : ℕ
  pub backoff : BackoffStrategy
  pub base_delay : ℤ
  pub max_delay : ℤ
  pub retryable_status_codes : List ℕ
  pub non_retryable_status_codes : List ℕ
  pub retryable_exceptions : List RequestsClass

abbrev pub default_retryable_status_codes : List ℕ
default_retryable_status_codes = 429 ∷ 500 ∷ 502 ∷ 503 ∷ 504 ∷ []

abbrev pub default_non_retryable_status_codes : List ℕ
default_non_retryable_status_codes = 400 ∷ 401 ∷ 403 ∷ 404 ∷ []

abbrev pub default_retryable_exceptions : List RequestsClass
default_retryable_exceptions = connection_error ∷ timeout ∷ read_timeout ∷ []

-- the dataclass's defaults
abbrev pub default_policy : RetryPolicy
default_policy = record {
  max_retries = 3;
  backoff = exponential;
  base_delay = pos 1000;
  max_delay = pos 60000;
  retryable_status_codes = default_retryable_status_codes;
  non_retryable_status_codes = default_non_retryable_status_codes;
  retryable_exceptions = default_retryable_exceptions;
}

growth : BackoffStrategy → ℕ → ℕ
growth no_backoff attempt = 0
growth linear attempt = attempt + 1
growth exponential attempt = 2 ^ attempt

capped : BackoffStrategy → ℤ → ℤ → ℤ
capped no_backoff delay max_delay = pos 0
capped _ delay max_delay = min_ℤ delay max_delay

unfoldable pub compute_delay : RetryPolicy → ℕ → ℤ
unfolding growth capped
compute_delay p attempt =
    capped p.backoff (scale p.base_delay (growth p.backoff attempt)) p.max_delay

pub status_in : ℕ → List ℕ → Bool
status_in code [] = false
status_in code (c ∷ codes) = nat_eq code c || status_in code codes

unfoldable pub is_retryable_status : RetryPolicy → ℕ → Bool
unfolding status_in
is_retryable_status p code =
    if status_in code p.non_retryable_status_codes
    then false
    else status_in code p.retryable_status_codes

-- `isinstance(exc, tuple)` for an exception of `requests`
unfoldable pub is_instance_of_any : RequestsClass → List RequestsClass → Bool
unfolding requests_subclass
is_instance_of_any c [] = false
is_instance_of_any c (d ∷ ds) = requests_subclass c d || is_instance_of_any c ds

unfoldable pub is_retryable_exception : RetryPolicy → Exn → Bool
is_retryable_exception p (connector e) = e.retryable
is_retryable_exception p (requests_error c message) = is_instance_of_any c p.retryable_exceptions
is_retryable_exception p (exception message) = false

abbrev nonzero : Option ℤ → Option ℤ
nonzero none = none
nonzero (some t) = if is_nonzero t then some t else none

abbrev limited : ErrorClass → Option ℤ → Option ℤ
limited rate_limit_error t = nonzero t
limited _ t = none

-- the wait that a rate limit error asks for, if it is one and asks for any
abbrev pub asked_wait : Exn → Option ℤ
asked_wait (connector e) = limited e.kind e.retry_after
asked_wait _ = none

unfoldable pub should_retry : RetryPolicy → ℕ → Exn → Bool × ℤ
unfolding is_retryable_exception compute_delay
should_retry p attempt error =
    if leb p.max_retries attempt then (false, pos 0) else elim (asked_wait error) [
      | some t ↦ (true, min_ℤ t p.max_delay)
      | none ↦
          if not (is_retryable_exception p error)
          then (false, pos 0)
          else (true, compute_delay p attempt)
    ]

-- `raise last_error`, where `None` is no exception
abbrev reraise : Option Exn → Exn
reraise none = exception "exceptions must derive from BaseException"
reraise (some e) = e

-- `if delay > 0: time.sleep(delay)`
pub pause {ℓ} : {W : Type ℓ} → (ℤ → W → W) → ℤ → W → W
pause sleep delay w = if ltb_ℤ (pos 0) delay then sleep delay w else w

module _ {ℓ κ} {W : Type ℓ} {A : Type κ} (sleep : ℤ → W → W) where
  -- the `for` loop, by the rounds that are left
  attempts : RetryPolicy → Action W A → ℕ → ℕ → Option Exn → Action W A
  unfolding pause
  attempts p func zero attempt last w = (raise (reraise last), w)
  attempts p func (suc rounds) attempt last w =
      let (r, w') = func w in
      elim r [
        | ok a ↦ (ok a, w')
        | raise e ↦
            let (again, delay) = should_retry p attempt e in
            let rest = attempts p func rounds (attempt + 1) (some e) (pause sleep delay w') in
            if again then rest else (raise e, w')
      ]

  unfoldable pub execute_with_retry : Option RetryPolicy → Action W A → Action W A
  unfolding attempts
  execute_with_retry none func = func
  execute_with_retry (some p) func = attempts p func (p.max_retries + 1) 0 none
