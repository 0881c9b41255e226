-- ===== src/Webhooks/Dispatcher.antt =====
-- core/webhooks/dispatcher.py: verification of a webhook and its normal form. The payload of an event
-- is a dict: what `json.loads` read, or the text that it could not read.
pub mod Verification
pub mod Payloads
use bapp_connectors.Base.{
  Bool, Option, String, false, if◌then◌else◌, none, prefix, some, true, truthy, ◌<>◌, string_key,
}
use bapp_connectors.Base.Dict.{Dict, get}
use bapp_connectors.Errors.{Exn, connector, exception, new_error, webhook_verification_error}
use bapp_connectors.Effect.{Outcome, ok, raise}
use bapp_connectors.Webhooks.Signatures.{
  Platform, dict_value, get_verifier, not_json, other_value, verify,
}

pub data Payload {ℓ} (J : Type ℓ) : Type ℓ where
  json_payload : J → Payload J
  raw_payload : String → Payload J

pub record WebhookEvent {ℓ} (J : Type ℓ) : Type ℓ where
  pub event_type : String
  pub provider : String
  pub provider_event_type : String
  pub payload : Payload J
  pub idempotency_key : String
  pub signature_valid : Bool

-- The arguments of `receive`.
pub record Request {ℓ} (B : Type ℓ) : Type ℓ where
  pub provider : String
  pub headers : Dict String String
  pub body : B
  pub signature_method : Option String
  pub signature_header : String
  pub secret : String

abbrev verification_error : String → Exn
verification_error message = connector (new_error webhook_verification_error message none)

abbrev pub header_or_empty : Option String → String
header_or_empty none = ""
header_or_empty (some s) = s

-- `if not verifier.verify(...): raise`
abbrev require_valid : Outcome Bool → Outcome Bool
require_valid (ok true) = ok true
require_valid (ok false) = raise (verification_error "Webhook signature verification failed.")
require_valid (raise e) = raise e

module _ {ℓ} {B J : Type ℓ} (p : Platform B J) where
  unfoldable pub compute_idempotency_key : String → B → String
  compute_idempotency_key provider body = provider <> ":" <> prefix 16 (p.sha256 body)

  check_method : Request B → String → Outcome Bool
  unfolding verify get_verifier
  check_method r method =
      let signature = header_or_empty (get r.signature_header r.headers) in
      if truthy method
      then if truthy signature
        then require_valid (verify p (get_verifier method) r.body signature r.secret)
        else raise (verification_error ("Missing signature header: " <> r.signature_header))
      else ok true

  unfoldable pub verify_signature : Request B → Outcome Bool
  unfolding check_method
  verify_signature r = elim r.signature_method [
    | none ↦ ok true
    | some method ↦ check_method r method
  ]

  pub event_of : Request B → Payload J → WebhookEvent J
  unfolding compute_idempotency_key
  event_of r payload = record {
    event_type = "unknown";
    provider = r.provider;
    provider_event_type = "";
    payload = payload;
    idempotency_key = compute_idempotency_key r.provider r.body;
    signature_valid = true;
  }

  -- a JSON value that is no dict does not fit the field of the event
  pub parse : Request B → Outcome (WebhookEvent J)
  unfolding event_of
  parse r = elim (p.loads r.body) [
    | dict_value j ↦ ok (event_of r (json_payload j))
    | other_value ↦ raise (exception "1 validation error for WebhookEvent")
    | not_json ↦ ok (event_of r (raw_payload (p.decode r.body)))
  ]

  abbrev pub parse_after : Request B → Outcome Bool → Outcome (WebhookEvent J)
  parse_after r (ok valid) = parse r
  parse_after r (raise e) = raise e

  unfoldable pub dispatch : Request B → Outcome (WebhookEvent J)
  unfolding verify_signature parse
  dispatch r = parse_after r (verify_signature r)
