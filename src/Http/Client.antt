-- ===== src/Http/Client.antt =====
-- core/http/client.py: `ResilientHttpClient`. The rate limiter stands by its `wait`.
pub mod Status
pub mod Calls
pub mod Tests
use bapp_connectors.Base.{
  Bool, Option, String, [], false, if◌then◌else◌, is_empty, leb, ltb, nat_eq, none, or_else, prefix,
  some, str, true, truthy, ℕ, ◌&&◌, ◌-◌, ◌<>◌, ◌||◌, string_key,
}
use bapp_connectors.Base.Int.{ℤ}
use bapp_connectors.Base.Dict.{put, update}
use bapp_connectors.Errors.{
  ConnectorError, Exn, authentication_error, connector, new_rate_limit_error, new_status_error,
  permanent_provider_error, provider_error, requests_error,
}
use bapp_connectors.Effect.{Action, Outcome, ok, raise}
use bapp_connectors.Http.Url.{lstrip_slash, rstrip_slash, starts_with}
use bapp_connectors.Http.Message.{
  Body, ErrorContext, Kwargs, RequestContext, Response, ResponseContext, Transport, Wire,
  process_response, raw,
}
use bapp_connectors.Http.Retry.{RetryPolicy, execute_with_retry}
use bapp_connectors.Http.Auth.{Auth, Headers, apply_to_headers, get_auth, no_auth}
use bapp_connectors.Http.Middleware.{
  MiddlewareChain, fire_on_error, fire_on_request, fire_on_response, new_chain,
}

pub record Client {ℓ} (W J : Type ℓ) : Type ℓ where
  pub base_url : String
  pub user_agent : String
  pub auth : Auth
  pub retry_policy : Option RetryPolicy
  -- the limiter, by its `wait`
  pub rate_limiter : Option (W → W)
  pub timeout : ℕ
  pub provider_name : String
  pub middleware :
      MiddlewareChain (Wire J × W) (RequestContext {ℓ}) (ResponseContext J) (ErrorContext {ℓ})

abbrev default_user_agent : String
default_user_agent = "BappConnectors/0.48.1"

abbrev is_requests_error : Exn → Bool
is_requests_error (requests_error c message) = true
is_requests_error _ = false

-- the type of the methods that name their verb
abbrev pub VerbCall {ℓ} : Type ℓ → Type ℓ → Type ℓ
VerbCall W J =
    Client W J → Transport W J → String → Bool → Headers → Bool → Kwargs J → Action W (Body J)

module _ {ℓ} {W J : Type ℓ} where
  unfoldable pub new_client :
      String
      → Option Auth
      → Option RetryPolicy
      → Option (W → W)
      → ℕ
      → String
      → Option
          (MiddlewareChain (Wire J × W) (RequestContext {ℓ}) (ResponseContext J) (ErrorContext {ℓ}))
      → String
      → Client W J
  unfolding rstrip_slash new_chain
  new_client base_url auth retry_policy rate_limiter seconds provider_name middleware user_agent =
      record {
        base_url = rstrip_slash base_url <> "/";
        user_agent = or_else user_agent default_user_agent;
        auth = elim auth [ none ↦ no_auth | some a ↦ a ];
        retry_policy = retry_policy;
        rate_limiter = rate_limiter;
        timeout = seconds;
        provider_name = provider_name;
        middleware = elim middleware [ none ↦ new_chain | some m ↦ m ];
      }

  pub build_url : Client W J → Transport W J → String → String
  unfolding lstrip_slash starts_with
  build_url c t path =
      if starts_with path "http://" || starts_with path "https://"
      then path
      else t.urljoin c.base_url (lstrip_slash path)

  pub build_headers : Client W J → Headers → Headers
  unfolding apply_to_headers
  build_headers c extra =
      let own = apply_to_headers c.auth (put "User-Agent" c.user_agent []) in
      if is_empty extra then own else update own extra

  retry_after_of : Transport W J → Response J → Option ℤ
  retry_after_of t response = elim (response.header "Retry-After") [
    | none ↦ none
    | some value ↦ if truthy value then t.parse_float value else none
  ]

  -- `none` where the method returns without raising
  unfoldable pub classify_error : Transport W J → Response J → Option ConnectorError
  unfolding retry_after_of new_status_error new_rate_limit_error
  classify_error t response =
      let status = response.status_code in
      if nat_eq status 401 || nat_eq status 403
      then some (
          new_status_error authentication_error
            ("Authentication failed: " <> str status <> " " <> prefix 200 response.text) status)
      else if nat_eq status 428 || nat_eq status 429
      then some (new_rate_limit_error ("Rate limited: " <> str status) (retry_after_of t response))
      else if leb 400 status && ltb status 500
      then some (
          new_status_error permanent_provider_error
            ("Client error: " <> str status <> " " <> prefix 500 response.text) status)
      else if leb 500 status
      then some (
          new_status_error provider_error
            ("Server error: " <> str status <> " " <> prefix 500 response.text) status)
      else none

  -- from the check of `response.ok` to the end
  pub finish : Transport W J → Bool → Response J → Outcome (Body J)
  unfolding classify_error process_response
  finish t direct_response response =
      if direct_response
      then ok (raw response)
      else if response.is_ok
      then ok (process_response response)
      else elim (classify_error t response) [
        | some e ↦ raise (connector e)
        | none ↦ ok (process_response response)
      ]

  limit_rate : Client W J → W → W
  limit_rate c w = elim c.rate_limiter [ none ↦ w | some wait ↦ wait w ]

  -- after the request has been sent
  settle :
      Client W J
      → Transport W J
      → Bool
      → RequestContext {ℓ}
      → Wire J
      → Outcome (Response J) × W
      → Outcome (Body J) × W
  unfolding finish fire_on_error fire_on_response
  settle c t direct_response ctx wire (raise e, w) =
      if is_requests_error e
      then (raise e, (fire_on_error c.middleware (record { request = ctx; error = e }) (wire, w)).1)
      else (raise e, w)
  settle c t direct_response ctx wire (ok response, w) =
      let (now, w') = t.monotonic w in
      let done : ResponseContext J = record {
        request = ctx;
        status_code = response.status_code;
        duration_ms = now - ctx.started_at;
        response = response;
      } in
      (finish t direct_response response, (fire_on_response c.middleware done (wire, w')).1)

  unfoldable pub execute_request :
      Client W J → Transport W J → String → String → Bool → Headers → Kwargs J → Action W (Body J)
  unfolding build_url build_headers limit_rate settle get_auth fire_on_request
  execute_request c t method path direct_response headers kwargs w =
      let (started, w₁) = t.monotonic (limit_rate c w) in
      let url = build_url c t path in
      let auth_obj : Option (String × String) = elim kwargs.auth [
        | none ↦ get_auth c.auth
        | some a ↦ a
      ] in
      let ctx : RequestContext {ℓ} = record {
        method = method;
        url = url;
        started_at = started;
        provider = c.provider_name;
        log_body = kwargs.log_body;
      } in
      let wire : Wire J = record {
        headers = build_headers c headers;
        timeout = elim kwargs.timeout [ none ↦ c.timeout | some s ↦ s ];
        rest = kwargs.rest;
      } in
      let (sent, w₂) = fire_on_request c.middleware ctx (wire, w₁) in
      settle c t direct_response ctx sent (t.request method url auth_obj sent w₂)

  unfoldable pub call :
      Client W J
      → Transport W J
      → String
      → String
      → Bool
      → Headers
      → Bool
      → Kwargs J
      → Action W (Body J)
  call c t method path direct_response headers retry kwargs =
      if retry
      then execute_with_retry t.sleep c.retry_policy
          (execute_request c t method path direct_response headers kwargs)
      else execute_request c t method path direct_response headers kwargs

  unfoldable pub get_call : VerbCall W J
  get_call c t path direct headers retry kwargs = call c t "GET" path direct headers retry kwargs

  unfoldable pub post_call : VerbCall W J
  post_call c t path direct headers retry kwargs = call c t "POST" path direct headers retry kwargs

  unfoldable pub put_call : VerbCall W J
  put_call c t path direct headers retry kwargs = call c t "PUT" path direct headers retry kwargs

  unfoldable pub patch_call : VerbCall W J
  patch_call c t path direct headers retry kwargs =
      call c t "PATCH" path direct headers retry kwargs

  -- always the raw response
  unfoldable pub delete_call :
      Client W J → Transport W J → String → Headers → Bool → Kwargs J → Action W (Body J)
  delete_call c t path headers retry kwargs = call c t "DELETE" path true headers retry kwargs
