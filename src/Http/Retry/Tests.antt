-- ===== src/Http/Retry/Tests.antt =====
-- Retry policies and the retry loop of core/http/retry.py on concrete inputs. The function fails as
-- often as its state says, and sleeping does nothing.
use bapp_connectors.Base.{none, refl, some, suc, true, zero, ℕ, ◌↔◌, ◌≡◌}
use bapp_connectors.Base.Int.{pos, ℤ}
use bapp_connectors.Errors.{Exn, connector, provider_error}
use bapp_connectors.Effect.{Action, ok, raise}
use bapp_connectors.Http.Retry.{
  attempts, capped, compute_delay, default_policy, execute_with_retry, growth,
  is_retryable_exception, pause, should_retry,
}
use bapp_connectors.Http.Retry.Attempts.{Run, execute_with_retry_iff}

abbrev server_down : Exn
server_down = connector (record {
  kind = provider_error;
  message = "Server error: 503";
  retryable = true;
  status_code = some 503;
  retry_after = none;
})

abbrev no_sleep : ℤ → ℕ → ℕ
no_sleep d w = w

abbrev flaky : Action ℕ ℕ
flaky zero = (ok 7, 0)
flaky (suc n) = (raise server_down, n)

abbrev down : Action ℕ ℕ
down n = (raise server_down, n)

third_delay : compute_delay default_policy 2 ≡ pos 4000
unfolding compute_delay growth capped
third_delay = refl

recovers : execute_with_retry no_sleep (some default_policy) flaky 2 ≡ (ok 7, 0)
unfolding execute_with_retry attempts should_retry is_retryable_exception pause
recovers = refl

execute_with_retry_iff_example :
    Run no_sleep default_policy flaky 0 2 (ok 7, 0)
    ↔ (execute_with_retry no_sleep (some default_policy) flaky 2 ≡ (ok 7, 0))
execute_with_retry_iff_example = execute_with_retry_iff no_sleep default_policy flaky 2 (ok 7, 0)

down_retryable : is_retryable_exception default_policy server_down ≡ true
unfolding is_retryable_exception
down_retryable = refl
