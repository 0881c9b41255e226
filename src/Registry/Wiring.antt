-- ===== src/Registry/Wiring.antt =====
-- The HTTP client that core/registry.py makes of a manifest.
use bapp_connectors.Registry.{Builder, build_auth, http_client_of, retry_policy_of}
use bapp_connectors.Manifest.{
  AuthStrategy, ProviderManifest, RateLimitConfig, RetryConfig, api_key_strategy, basic_strategy,
  bearer_strategy, custom_strategy, none_strategy, oauth2_strategy, token_strategy,
}
use bapp_connectors.Base.Dict.{Dict, get, put}
use bapp_connectors.Base.{
  String, arith, max, none, refl, some, text_or_empty, ℕ, ◌*◌, ◌<>◌, ◌<◌, ◌≡◌, string_key,
}
use bapp_connectors.Http.RateLimit.{RateLimiter, new_limiter, token}
use bapp_connectors.Http.Auth.{Auth, Headers, apply_to_headers, get_auth}
use bapp_connectors.Http.Retry.{RetryPolicy}
use bapp_connectors.Http.Client.{Client, new_client}
use bapp_connectors.Http.Url.{rstrip_slash}

-- A retry policy with every number and every list of the manifest.
abbrev pub FollowsRetry : RetryConfig → RetryPolicy → Type 0
FollowsRetry r p =
    (p.max_retries ≡ r.max_retries)
    × (p.backoff ≡ r.backoff)
    × (p.base_delay ≡ r.base_delay)
    × (p.max_delay ≡ r.max_delay)
    × (p.retryable_status_codes ≡ r.retryable_status_codes)
    × (p.non_retryable_status_codes ≡ r.non_retryable_status_codes)

-- A limiter with the rate of the manifest, which is positive, and a full bucket of its burst.
abbrev pub FollowsRate : RateLimitConfig → ℕ → RateLimiter → Type 0
FollowsRate r now l =
    (0 < r.requests_per_second)
    × (l.rate ≡ r.requests_per_second)
    × (l.burst ≡ max r.burst 1)
    × (l.tokens ≡ max r.burst 1 * token)
    × (l.last_refill ≡ now)

new_limiter-FollowsRate :
    (r : RateLimitConfig) (now : ℕ) (l : RateLimiter)
    → new_limiter r.requests_per_second r.burst now ≡ some l
    → FollowsRate r now l
unfolding new_limiter
new_limiter-FollowsRate r now l h = ground arith

-- What a client puts on its requests: a user name and a password, a token in the header Authorization, or
-- nothing.
abbrev pub Presents : AuthStrategy → Dict String String → Auth → Type 0
Presents basic_strategy credentials auth =
    ((headers : Headers) → apply_to_headers auth headers ≡ headers)
    × (get_auth auth
        ≡ some (
          text_or_empty (get "username" credentials),
          text_or_empty (get "password" credentials),
        ))
Presents bearer_strategy credentials auth =
    ((headers : Headers)
      → apply_to_headers auth headers
        ≡ put "Authorization" ("Bearer" <> " " <> text_or_empty (get "token" credentials)) headers)
    × (get_auth auth ≡ none)
Presents token_strategy credentials auth =
    ((headers : Headers)
      → apply_to_headers auth headers
        ≡ put "Authorization" (text_or_empty (get "token" credentials)) headers)
    × (get_auth auth ≡ none)
Presents _ credentials auth =
    ((headers : Headers) → apply_to_headers auth headers ≡ headers) × (get_auth auth ≡ none)

build_auth-Presents :
    (strategy : AuthStrategy) (credentials : Dict String String)
    → Presents strategy credentials (build_auth strategy credentials)
unfolding build_auth apply_to_headers get_auth
build_auth-Presents basic_strategy credentials = (λ headers. refl, refl)
build_auth-Presents bearer_strategy credentials = (λ headers. refl, refl)
build_auth-Presents token_strategy credentials = (λ headers. refl, refl)
build_auth-Presents none_strategy credentials = (λ headers. refl, refl)
build_auth-Presents api_key_strategy credentials = (λ headers. refl, refl)
build_auth-Presents oauth2_strategy credentials = (λ headers. refl, refl)
build_auth-Presents custom_strategy credentials = (λ headers. refl, refl)

module _ {ℓ} {W J : Type ℓ} (b : Builder W) (m : ProviderManifest)
    (credentials : Dict String String) where
  -- A client for the manifest's address, with its authentication, retry policy and limiter.
  abbrev pub IsClientOf : Client W J → Type ℓ
  IsClientOf client =
      (client.base_url ≡ rstrip_slash m.base_url <> "/")
      × (client.provider_name ≡ m.name)
      × Presents m.auth.strategy credentials client.auth
      × ((p : RetryPolicy) × (client.retry_policy ≡ some p) × FollowsRetry m.retry p)
      × ((l : RateLimiter) × (client.rate_limiter ≡ some (b.waiting l))
          × FollowsRate m.rate_limit b.now l)

pub http_client_of-IsClientOf {ℓ} :
    {W : Type ℓ} (J : Type ℓ) (b : Builder W) (m : ProviderManifest)
    (credentials : Dict String String) (l : RateLimiter)
    → new_limiter m.rate_limit.requests_per_second m.rate_limit.burst b.now ≡ some l
    → IsClientOf {J = J} b m credentials (http_client_of b m credentials l)
unfolding http_client_of new_client retry_policy_of
http_client_of-IsClientOf J b m credentials l h = (
  refl,
  refl,
  build_auth-Presents m.auth.strategy credentials,
  (retry_policy_of m.retry, refl, (refl, refl, refl, refl, refl, refl)),
  (l, refl, new_limiter-FollowsRate m.rate_limit b.now l h),
)
