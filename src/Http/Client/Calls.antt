-- ===== src/Http/Client/Calls.antt =====
-- What a call of core/http/client.py does when the server keeps giving one answer.
use bapp_connectors.Base.{
  Bool, Option, Option-cases, String, arith, false, inl, inr, none, refl, some, true, ℕ, ◌<◌, ◌∙◌,
  ◌≡◌, ◌≢◌, ◌≤◌, ◌⊎◌,
}
use bapp_connectors.Base.Int.{ℤ}
use bapp_connectors.Errors.{ConnectorError, connector, rate_limit_error}
use bapp_connectors.Effect.{Outcome, ok, raise}
use bapp_connectors.Http.Auth.{Headers}
use bapp_connectors.Http.Message.{Body, Kwargs, RequestContext, Response, Transport, Wire, raw}
use bapp_connectors.Http.Retry.{RetryPolicy, execute_with_retry, is_retryable_exception}
use bapp_connectors.Http.Retry.Attempts.{
  Retries, asked, backs_off, execute_with_retry_fatal, execute_with_retry_returns,
}
use bapp_connectors.Http.Client.{Client, call, classify_error, execute_request, finish, settle}
use bapp_connectors.Http.Client.Status.{classify_error-none_iff, classify_error_kinds}

-- Every request that the transport sends is answered with `response`.
abbrev pub Answers {ℓ} : {W J : Type ℓ} → Transport W J → Response J → Type ℓ
Answers {W = W} {J = J} t response =
    (method url : String) (auth : Option (String × String)) (wire : Wire J) (w : W)
    → (t.request method url auth wire w).0 ≡ ok response

-- What a call makes of an answer that is an error of the client: with `direct_response` the answer,
-- else an error that is not to be retried, with the status.
abbrev pub GivenBack {ℓ} : {J : Type ℓ} → Bool → Response J → Outcome (Body J) → Type ℓ
GivenBack true response o = o ≡ ok (raw response)
GivenBack false response o =
    (e : ConnectorError) × (o ≡ raise (connector e))
    × (e.retryable ≡ false)
    × (e.status_code ≡ some response.status_code)

Bool-not_true : (b : Bool) → ¬ (b ≡ true) → b ≡ false
Bool-not_true true h = absurd (h refl)
Bool-not_true false h = refl

fatal_not_Retries :
    (p : RetryPolicy) (n : ℕ) (e : ConnectorError) (d : ℤ)
    → e.retryable ≡ false
    → (e.kind ≡ rate_limit_error) ⊎ (e.retry_after ≡ none)
    → e.kind ≢ rate_limit_error
    → ¬ Retries p n (connector e) d
unfolding is_retryable_exception
fatal_not_Retries p n e d r h k (asked t a q) = ground arith
fatal_not_Retries p n e d r h k (backs_off a q x) = ground arith

module _ {ℓ} {W J : Type ℓ} (c : Client W J) (t : Transport W J) (response : Response J) where
  settle-finish :
      (direct : Bool) (ctx : RequestContext {ℓ}) (wire : Wire J) (r : Outcome (Response J) × W)
      → r.0 ≡ ok response
      → (settle c t direct ctx wire r).0 ≡ finish t direct response
  unfolding settle
  settle-finish direct ctx wire (ok x, w) h = ground arith
  settle-finish direct ctx wire (raise x, w) h = cc

  finish_direct : finish t true response ≡ ok (raw response)
  unfolding finish
  finish_direct = refl

  finish_client_error :
      response.is_ok ≡ false
      → 400 ≤ response.status_code
      → response.status_code < 500
      → response.status_code ≢ 428
      → response.status_code ≢ 429
      → (e : ConnectorError) × (classify_error t response ≡ some e)
        × (finish t false response ≡ raise (connector e))
        × (e.retryable ≡ false)
        × (e.kind ≢ rate_limit_error)
        × ((e.kind ≡ rate_limit_error) ⊎ (e.retry_after ≡ none))
        × (e.status_code ≡ some response.status_code)
  unfolding finish
  finish_client_error bad low high h h' = elim (Option-cases (classify_error t response)) [
    | inl q ↦ absurd (omega (arith, (classify_error-none_iff t response).0 q))
    | inr (e, q) ↦
        let k = classify_error_kinds t response e q in
        (
          e,
          q,
          ground arith,
          Bool-not_true e.retryable (λ x. elim (k.0.0 x) [
            | inl a ↦ h a
            | inr (inl b) ↦ h' b
            | inr (inr b) ↦ omega arith
          ]),
          ground (arith, k.2.0),
          k.3,
          ground (arith, k.2.0, k.4),
        )
  ]

  module _ (answers : Answers t response) (method path : String) (headers : Headers)
      (kwargs : Kwargs J) (w : W) where
    execute_request-finish :
        (direct : Bool)
        → (execute_request c t method path direct headers kwargs w).0 ≡ finish t direct response
    unfolding execute_request
    execute_request-finish direct = settle-finish direct _ _ _ (answers _ _ _ _ _)

    call_first :
        (direct retry : Bool)
        → execute_with_retry t.sleep c.retry_policy
            (execute_request c t method path direct headers kwargs)
            w
          ≡ execute_request c t method path direct headers kwargs w
        → call c t method path direct headers retry kwargs w
          ≡ execute_request c t method path direct headers kwargs w
    unfolding call
    call_first direct true h = h
    call_first direct false h = refl

    raised_once :
        (retry : Bool)
        → response.is_ok ≡ false
        → 400 ≤ response.status_code
        → response.status_code < 500
        → response.status_code ≢ 428
        → response.status_code ≢ 429
        → (call c t method path false headers retry kwargs w
            ≡ execute_request c t method path false headers kwargs w)
          × GivenBack false response (call c t method path false headers retry kwargs w).0
    raised_once retry bad low high h h' =
        let (e, _, f, r, k, a, code) = finish_client_error bad low high h h' in
        let first = execute_request-finish false ∙ f in
        let once = call_first false retry (
          execute_with_retry_fatal t.sleep _ w c.retry_policy (connector e) first
            (λ p d. fatal_not_Retries p 0 e d r a k)) in
        (once, (e, rw once first, r, code))

    direct_response_returned :
        (retry : Bool)
        → (call c t method path true headers retry kwargs w
            ≡ execute_request c t method path true headers kwargs w)
          × ((call c t method path true headers retry kwargs w).0 ≡ ok (raw response))
    direct_response_returned retry =
        let first = execute_request-finish true ∙ finish_direct in
        let once =
          call_first true retry
            (execute_with_retry_returns t.sleep _ w c.retry_policy (raw response) first) in
        (once, rw once first)

    -- A server that answers with a status from 400 to 499 other than 428 and 429 is asked once,
    -- whatever the retry policy and however the call is made: the call is its first attempt. With
    -- `direct_response` it returns the answer as it is; else it raises an error that is not retryable
    -- and that carries the status.
    pub client_error_not_retried :
        (direct retry : Bool)
        → response.is_ok ≡ false
        → 400 ≤ response.status_code
        → response.status_code < 500
        → response.status_code ≢ 428
        → response.status_code ≢ 429
        → (call c t method path direct headers retry kwargs w
            ≡ execute_request c t method path direct headers kwargs w)
          × GivenBack direct response (call c t method path direct headers retry kwargs w).0
    client_error_not_retried true retry bad low high h h' = direct_response_returned retry
    client_error_not_retried false retry bad low high h h' = raised_once retry bad low high h h'
