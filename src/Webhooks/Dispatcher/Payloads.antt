-- ===== src/Webhooks/Dispatcher/Payloads.antt =====
-- The payload that core/webhooks/dispatcher.py makes of a body.
use bapp_connectors.Base.{Bool, Option, ap, none, refl, some, sym, ◌∙◌, ◌≡◌, string_key}
use bapp_connectors.Errors.{exception}
use bapp_connectors.Effect.{Outcome, ok, raise}
use bapp_connectors.Webhooks.Signatures.{Loaded, Platform, dict_value, not_json, other_value}
use bapp_connectors.Webhooks.Dispatcher.{
  Payload, Request, WebhookEvent, dispatch, event_of, json_payload, parse, parse_after, raw_payload,
  verify_signature,
}

module _ {ℓ} {B J : Type ℓ} (p : Platform B J) (r : Request B) where
  -- the dict that the body reads as, or its text; there is none for another value
  abbrev pub payload_of : Loaded J → Option (Payload J)
  payload_of (dict_value j) = some (json_payload j)
  payload_of other_value = none
  payload_of not_json = some (raw_payload (p.decode r.body))

  abbrev payload_in : Outcome (WebhookEvent J) → Option (Payload J)
  payload_in (ok event) = some event.payload
  payload_in (raise e) = none

  parse-payload_of : payload_in (parse p r) ≡ payload_of (p.loads r.body)
  unfolding parse event_of
  parse-payload_of = by_reading (p.loads r.body)
    where
      by_reading :
          (x : Loaded J)
          → payload_in (elim x [
            | dict_value j ↦ ok (event_of p r (json_payload j))
            | other_value ↦ raise (exception "1 validation error for WebhookEvent")
            | not_json ↦ ok (event_of p r (raw_payload (p.decode r.body)))
          ])
            ≡ payload_of x
      by_reading (dict_value j) = refl
      by_reading other_value = refl
      by_reading not_json = refl

  pub dispatch-payload_of :
      (event : WebhookEvent J)
      → dispatch p r ≡ ok event
      → payload_of (p.loads r.body) ≡ some event.payload
  unfolding dispatch
  dispatch-payload_of event h = sym parse-payload_of ∙ after (verify_signature p r) h
    where
      after :
          (o : Outcome Bool)
          → parse_after p r o ≡ ok event
          → payload_in (parse p r) ≡ some event.payload
      after (ok valid) h = ap payload_in h
      after (raise e) h = cc
