-- ===== src/Http/Client/Tests.antt =====
-- The HTTP client of core/http/client.py against servers that keep giving one answer.
use bapp_connectors.Base.{
  Bool, String, [], arith, false, none, refl, some, str, true, ℕ, ◌+◌, ◌<>◌, ◌↔◌, ◌≡◌, ◌⊎◌,
}
use bapp_connectors.Base.Int.{pos}
use bapp_connectors.Errors.{
  ConnectorError, authentication_error, class_retryable, new_error, new_rate_limit_error,
  rate_limit_error,
}
use bapp_connectors.Effect.{ok}
use bapp_connectors.Http.Retry.{default_policy}
use bapp_connectors.Http.Message.{Kwargs, Response, Transport}
use bapp_connectors.Http.Client.{
  Client, call, classify_error, execute_request, new_client, retry_after_of,
}
use bapp_connectors.Http.Client.Status.{IsTransient, classify_error_kinds}
use bapp_connectors.Http.Client.Calls.{GivenBack, client_error_not_retried}

abbrev answer : ℕ → Bool → Response String
answer status good = record {
  status_code = status;
  is_ok = good;
  text = "no such order";
  header = λ name. some "5";
  json = none;
}

abbrev missing : Response String
missing = answer 404 false

abbrev teapot : Response String
teapot = answer 429 false

-- The state counts the requests that were sent.
abbrev server : Response String → Transport ℕ String
server response = record {
  request = λ method url auth wire w. (ok response, w + 1);
  monotonic = λ w. (w, w);
  sleep = λ d w. w;
  urljoin = λ base path. base <> path;
  parse_float = λ s. some (pos 5000);
}

abbrev no_kwargs : Kwargs String
no_kwargs = record { timeout = none; auth = none; log_body = true; rest = "" }

client : Client ℕ String
unfolding new_client
client = new_client "https://api.example.com/" none (some default_policy) none 10 "example" none ""

slow_down : ConnectorError
slow_down = record {
  kind = rate_limit_error;
  message = "Rate limited: " <> str 429;
  retryable = true;
  status_code = none;
  retry_after = some (pos 5000);
}

classify_teapot : classify_error (server teapot) teapot ≡ some slow_down
unfolding classify_error retry_after_of new_rate_limit_error new_error class_retryable slow_down
classify_teapot = refl

classify_error_kinds_example :
    (slow_down.retryable ≡ true ↔ IsTransient 429)
    × (slow_down.kind ≡ authentication_error
        ↔ (teapot.status_code ≡ 401) ⊎ (teapot.status_code ≡ 403))
    × (slow_down.kind ≡ rate_limit_error ↔ (teapot.status_code ≡ 428) ⊎ (teapot.status_code ≡ 429))
    × ((slow_down.kind ≡ rate_limit_error) ⊎ (slow_down.retry_after ≡ none))
    × ((slow_down.kind ≡ rate_limit_error) ⊎ (slow_down.status_code ≡ some 429))
classify_error_kinds_example = classify_error_kinds (server teapot) teapot slow_down classify_teapot

client_error_not_retried_example :
    (call client (server missing) "GET" "orders/7" false [] true no_kwargs 0
      ≡ execute_request client (server missing) "GET" "orders/7" false [] no_kwargs 0)
    × GivenBack false missing
        (call client (server missing) "GET" "orders/7" false [] true no_kwargs 0).0
client_error_not_retried_example =
    client_error_not_retried client (server missing) missing (λ method url auth wire w. refl) "GET"
      "orders/7" [] no_kwargs 0 false true refl (omega arith) (omega arith) (omega arith)
      (omega arith)
