-- ===== src/Django/Webhooks.antt =====
-- packages/django/src/django_bapp_connectors/models/webhook_event.py and services/webhook.py. The
-- table of events is the list of its rows, in the order of their creation. The unique constraint of
-- the key (line 22 of the model) is part of `create`, which refuses a second row with a key; the
-- limits that the model sets on the lengths of texts, 255 characters for a key, are left out. The
-- adapter's `parse_webhook` and `uuid.uuid4` are arguments.
pub mod Receipt
pub mod Duplicates
pub mod Forged
pub mod SameKey
pub mod Tests
use Prim.Native.Char.{code}
use bapp_connectors.Base.{
  Bool, List, Option, String, [], false, if◌then◌else◌, leb, nat_eq, none, not, or_else, prefix,
  some, true, truthy, ℕ, ◌&&◌, ◌++◌, ◌+◌, ◌<>◌, ◌==◌, ◌||◌, ◌∷◌, string_key,
}
use bapp_connectors.Base.Dict.{Dict}
use bapp_connectors.Errors.{
  ErrorClass, Exn, connector, exception, text_of, webhook_verification_error,
}
use bapp_connectors.Effect.{Action, Outcome, ok, raise, ◌>>=◌, ◌>>◌}
use bapp_connectors.Webhooks.Signatures.{Loaded, Platform, dict_value, not_json, other_value}
use bapp_connectors.Webhooks.Dispatcher.{
  Payload, Request, WebhookEvent, dispatch, json_payload, raw_payload,
}

pub data EventStatus : Type 0 where
  received processing processed failed_status duplicate rejected : EventStatus

-- `connection` is the connection's key, where there is one.
pub record EventRow {ℓ} (J : Type ℓ) : Type ℓ where
  pub provider : String
  pub event_type : String
  pub idempotency_key : String
  pub payload : Payload J
  pub headers : Dict String String
  pub signature_valid : Bool
  pub status : EventStatus
  pub error : String
  pub connection : Option ℕ

-- The table, and the keys of the `webhook_event_received` signals sent.
pub record Table {ℓ} (J : Type ℓ) : Type ℓ where
  pub rows : List (EventRow J)
  pub sent : List String

-- What the service returns: a row, or the event where there is no model.
pub data Received {ℓ} (J : Type ℓ) : Type ℓ where
  persisted : EventRow J → Received J
  unstored : WebhookEvent J → Received J

-- What `parse_webhook` tells of a webhook.
pub record Parsed : Type 0 where
  pub event_type : String
  pub provider_event_type : String
  pub idempotency_key : String

abbrev pub Parser {ℓ} : Type ℓ → Type ℓ
Parser B = Dict String String → B → Outcome (Option Parsed)

-- `k.lower()` compared with a text in lower case, for names in ASCII
lower_code : ℕ → ℕ
lower_code n = if leb 65 n && leb n 90 then n + 32 else n

is_lowered : String → String → Bool
is_lowered String.[] String.[] = true
is_lowered (String.◌∷◌ c s) (String.◌∷◌ d t) =
    nat_eq (lower_code (code c)) (code d) && is_lowered s t
is_lowered _ _ = false

dropped_header : String → Bool
dropped_header name = is_lowered name "cookie" || is_lowered name "authorization"

kept_headers : Dict String String → Dict String String
kept_headers [] = []
kept_headers ((name, value) ∷ headers) =
    let rest = kept_headers headers in if dropped_header name then rest else (name, value) ∷ rest

abbrev is_webhook_verification_class : ErrorClass → Bool
is_webhook_verification_class webhook_verification_error = true
is_webhook_verification_class _ = false

abbrev is_verification_error : Exn → Bool
is_verification_error (connector e) = is_webhook_verification_class e.kind
is_verification_error _ = false

module _ {ℓ} {J : Type ℓ} where
  -- `objects.filter(idempotency_key=key).exists()` and `.first()`
  pub exists : String → List (EventRow J) → Bool
  exists key [] = false
  exists key (row ∷ rows) = row.idempotency_key == key || exists key rows

  pub first : String → List (EventRow J) → Option (EventRow J)
  first key [] = none
  first key (row ∷ rows) =
      let rest = first key rows in if row.idempotency_key == key then some row else rest

  -- the row with the key, set to `duplicate` and saved
  pub set_duplicate : String → List (EventRow J) → List (EventRow J)
  set_duplicate key [] = []
  set_duplicate key (row ∷ rows) =
      let rest = set_duplicate key rows in
      if row.idempotency_key == key then record row { status = duplicate } ∷ rows else row ∷ rest

  -- `objects.create`
  pub create : EventRow J → Action (Table J) (EventRow J)
  unfolding exists
  create row t =
      if exists row.idempotency_key t.rows
      then (raise (exception "UNIQUE constraint failed: idempotency_key"), t)
      else (ok row, record t { rows = t.rows ++ row ∷ [] })

  rejected_payload : Loaded J → String → Payload J
  rejected_payload (dict_value j) text = json_payload j
  rejected_payload other_value text = raw_payload text
  rejected_payload not_json text = raw_payload text

module _ {ℓ} {B J : Type ℓ} (p : Platform B J) (has_model : Bool) where
  rejected_row : Request B → Option ℕ → String → Exn → EventRow J
  unfolding rejected_payload kept_headers is_lowered lower_code dropped_header
  rejected_row r connection uuid e =
      let text = if p.is_empty_body r.body then "" else prefix 16000 (p.decode r.body) in
      record {
        provider = r.provider;
        event_type = "unknown";
        idempotency_key = "rejected:" <> uuid;
        payload = rejected_payload (p.loads_text text) text;
        headers = kept_headers r.headers;
        signature_valid = false;
        status = rejected;
        error = prefix 2000 (text_of e);
        connection = connection;
      }

  -- `_store_rejected`: what creating the row raises is logged and dropped
  store_rejected : Request B → Option ℕ → String → Exn → Table J → Table J
  unfolding rejected_row create
  store_rejected r connection uuid e t =
      if has_model then (create (rejected_row r connection uuid e) t).1 else t

  adopt : Parsed → WebhookEvent J → WebhookEvent J
  adopt parsed event =
      if truthy parsed.event_type && not (parsed.event_type == "unknown")
      then record event {
        event_type = parsed.event_type;
        provider_event_type = or_else parsed.provider_event_type event.provider_event_type;
        idempotency_key = or_else parsed.idempotency_key event.idempotency_key;
      }
      else event

  -- what the parser raises is logged and dropped
  adopt_outcome : Outcome (Option Parsed) → WebhookEvent J → WebhookEvent J
  unfolding adopt
  adopt_outcome (ok none) event = event
  adopt_outcome (ok (some parsed)) event = adopt parsed event
  adopt_outcome (raise e) event = event

  pub normalise : Option (Parser B) → Request B → WebhookEvent J → WebhookEvent J
  unfolding adopt_outcome
  normalise none r event = event
  normalise (some parse_webhook) r event = adopt_outcome (parse_webhook r.headers r.body) event

  new_row : Request B → Option ℕ → WebhookEvent J → EventRow J
  new_row r connection event = record {
    provider = event.provider;
    event_type = event.event_type;
    idempotency_key = event.idempotency_key;
    payload = event.payload;
    headers = r.headers;
    signature_valid = event.signature_valid;
    status = received;
    error = "";
    connection = connection;
  }

  is_duplicate : String → Table J → Bool
  unfolding exists
  is_duplicate key t = has_model && exists key t.rows

  pub found_again : WebhookEvent J → Action (Table J) (Received J)
  unfolding first set_duplicate
  found_again event t = elim (first event.idempotency_key t.rows) [
    | some row ↦ (
      ok (persisted (record row { status = duplicate })),
      record t { rows = set_duplicate event.idempotency_key t.rows },
    )
    | none ↦ (ok (unstored event), t)
  ]

  announce : EventRow J → Action (Table J) (Received J)
  announce row t = (ok (persisted row), record t { sent = t.sent ++ row.idempotency_key ∷ [] })

  -- from the check for duplicates on
  record_event : Request B → Option ℕ → WebhookEvent J → Action (Table J) (Received J)
  unfolding is_duplicate found_again new_row create announce
  record_event r connection event t =
      if is_duplicate event.idempotency_key t
      then found_again event t
      else if has_model
      then (do row ← create (new_row r connection event); announce row) t
      else (ok (unstored event), t)

  pub refuse : Request B → Option ℕ → String → Exn → Table J → Table J
  unfolding store_rejected
  refuse r connection uuid e t =
      if is_verification_error e then store_rejected r connection uuid e t else t

  pub receive_dispatched :
      Request B
      → Option ℕ
      → Option (Parser B)
      → String
      → Outcome (WebhookEvent J)
      → Action (Table J) (Received J)
  unfolding refuse record_event normalise
  receive_dispatched r connection parser uuid (raise e) t = (raise e, refuse r connection uuid e t)
  receive_dispatched r connection parser uuid (ok event) t =
      record_event r connection (normalise parser r event) t

  unfoldable pub receive :
      Request B → Option ℕ → Option (Parser B) → String → Action (Table J) (Received J)
  unfolding receive_dispatched dispatch
  receive r connection parser uuid t = receive_dispatched r connection parser uuid (dispatch p r) t
