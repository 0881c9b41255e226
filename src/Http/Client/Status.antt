-- ===== src/Http/Client/Status.antt =====
-- How `_classify_error` of core/http/client.py sorts the answers of a server.
use bapp_connectors.Base.{arith, none, some, true, ℕ, ◌<◌, ◌↔◌, ◌≡◌, ◌≤◌, ◌⊎◌}
use bapp_connectors.Errors.{
  ConnectorError, authentication_error, new_rate_limit_error, new_status_error, rate_limit_error,
}
use bapp_connectors.Http.Message.{Response, Transport}
use bapp_connectors.Http.Client.{classify_error}

-- The statuses that are worth another attempt.
abbrev pub IsTransient : ℕ → Type 0
IsTransient status = (status ≡ 428) ⊎ (status ≡ 429) ⊎ (500 ≤ status)

module _ {ℓ} {W J : Type ℓ} (t : Transport W J) (response : Response J) where
  -- Exactly a status below 400 raises nothing.
  pub classify_error-none_iff : classify_error t response ≡ none ↔ response.status_code < 400
  unfolding classify_error new_status_error new_rate_limit_error
  classify_error-none_iff = (λ h. ground arith, λ h. ground arith)

  -- The error that is raised carries the class, the permission to retry and the wait that its status
  -- stands for: it is retryable exactly for 428, 429 and the statuses from 500 on, an authentication
  -- error exactly for 401 and 403, a rate limit error exactly for 428 and 429, asks for a wait only as
  -- a rate limit error, and carries the status unless it is one.
  pub classify_error_kinds :
      (e : ConnectorError)
      → classify_error t response ≡ some e
      → (e.retryable ≡ true ↔ IsTransient response.status_code)
        × (e.kind ≡ authentication_error
            ↔ (response.status_code ≡ 401) ⊎ (response.status_code ≡ 403))
        × (e.kind ≡ rate_limit_error ↔ (response.status_code ≡ 428) ⊎ (response.status_code ≡ 429))
        × ((e.kind ≡ rate_limit_error) ⊎ (e.retry_after ≡ none))
        × ((e.kind ≡ rate_limit_error) ⊎ (e.status_code ≡ some response.status_code))
  unfolding classify_error new_status_error new_rate_limit_error
  classify_error_kinds e h = (
    (λ q. ground arith, λ q. ground arith),
    (λ q. ground arith, λ q. ground arith),
    (λ q. ground arith, λ q. ground arith),
    ground arith,
    ground arith,
  )
