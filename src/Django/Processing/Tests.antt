-- ===== src/Django/Processing/Tests.antt =====
-- process_webhook on a stored form, with an adapter that counts its calls.
use bapp_connectors.Webhooks.Signatures.{Loaded, Platform, dict_value, not_json}
use bapp_connectors.Base.{
  String, [], if◌then◌else◌, none, not, refl, some, true, truthy, ℕ, ◌+◌, ◌<>◌, ◌==◌, ◌≡◌,
  string_key,
}
use bapp_connectors.Effect.{ok}
use bapp_connectors.Webhooks.Dispatcher.{
  Request, WebhookEvent, compute_idempotency_key, dispatch, raw_payload,
}
use bapp_connectors.Django.Connection.{Connection}
use bapp_connectors.Django.Webhooks.{rejected}
use bapp_connectors.Django.Processing.{
  Encoding, Job, Processor, process_webhook, stored_webhook_body,
}
use bapp_connectors.Django.Processing.Bodies.{stored_webhook_body-loads}

-- Only the text "{}" reads as a dict.
abbrev toy : Platform String String
toy = record {
  hmac_sha256 = λ secret body. secret <> body;
  hmac_sha1 = λ secret body. secret <> body;
  sha256 = λ body. body;
  stamp = λ t body. t <> "." <> body;
  loads = λ body. if body == "{}" then dict_value body else not_json;
  loads_text = λ text. not_json;
  decode = λ body. body;
  is_empty_body = λ body. not (truthy body);
}

abbrev toy_encoding : Encoding String String
toy_encoding = record { raw_text = λ j. none; encode = λ text. text; dumps = λ j. j }

abbrev form : Request String
form = record {
  provider = "librapay";
  headers = [];
  body = "ACTION=0";
  signature_method = none;
  signature_header = "";
  secret = "";
}

abbrev form_event : WebhookEvent String
form_event = record {
  event_type = "unknown";
  provider = "librapay";
  provider_event_type = "";
  payload = raw_payload "ACTION=0";
  idempotency_key = "librapay:ACTION=0";
  signature_valid = true;
}

form_dispatches : dispatch toy form ≡ ok form_event
unfolding dispatch compute_idempotency_key
form_dispatches = refl

stored_webhook_body-loads_example :
    let body = stored_webhook_body toy_encoding (raw_payload "ACTION=0") in
    (toy.loads body ≡ not_json) × (◌≡◌ {A = Loaded String} not_json not_json → body ≡ "ACTION=0")
stored_webhook_body-loads_example =
    stored_webhook_body-loads toy toy_encoding form form_event form_dispatches refl

-- The adapter sees the form of a payment.
abbrev processor : Processor String String String ℕ
processor = record {
  encoding = toy_encoding;
  type_of = λ dto. dto;
  get_adapter = λ w. (ok (some (λ headers body w. (ok (some ("paid:" <> body)), w + 1))), w);
  now = λ w. w;
}

abbrev job : Job String String ℕ
job =
    let c : Connection = record {
      provider_family = "payment";
      provider_name = "librapay";
      is_enabled = true;
      is_connected = true;
      auth_failure_count = 0;
      last_auth_failure_at = none;
      disabled_reason = "";
      updated_at = 0;
    } in
    record {
      event = record {
        provider = "librapay";
        event_type = "unknown";
        idempotency_key = "k";
        payload = raw_payload "ACTION=0";
        headers = [];
        signature_valid = true;
        status = rejected;
        error = "";
        connection = some 1;
      };
      processed_at = none;
      connection = some (record { object = c; row = c; sent = [] });
      sent = [];
      outside = 5;
    }

type_refined : (process_webhook processor job).1.event.event_type ≡ "paid:ACTION=0"
unfolding process_webhook stored_webhook_body
type_refined = refl
