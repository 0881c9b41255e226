-- ===== src/Providers/LibraPay/Tests.antt =====
-- LibraPay on concrete forms, with a toy digest that puts the key before the text.
use bapp_connectors.Base.{
  String, [], if◌then◌else◌, none, not, refl, some, str, true, truthy, ℕ, ◌&&◌, ◌+◌, ◌<>◌, ◌==◌,
  ◌∷◌, ◌≡◌, string_key,
}
use bapp_connectors.Providers.LibraPay.Forms.{
  Adapter, Fresh, RefundResponse, create_checkout_session,
}
use bapp_connectors.Providers.LibraPay.{
  Codec, Ipn, characters, compute_hmac, enc, ipn_fields, parse_webhook, verify_ipn_hmac,
  webhook_event_from_librapay,
}
use bapp_connectors.Effect.{Action, ok}
use bapp_connectors.Webhooks.Dispatcher.{
  Request, WebhookEvent, compute_idempotency_key, dispatch, json_payload,
}
use bapp_connectors.Django.Webhooks.SameKey.{OnlyDuplicate}
use bapp_connectors.Django.Webhooks.{receive}
use bapp_connectors.Pricing.CustomerKey.{all_digits}
use bapp_connectors.Providers.LibraPay.RefundNotice.{refund-OnlyDuplicate, told}
use bapp_connectors.Providers.LibraPay.Forms.Checkout.{Answers, create_checkout_session-Opened}
use bapp_connectors.Base.Dict.{Dict, put}
use bapp_connectors.Webhooks.Signatures.{Platform, dict_value}
use bapp_connectors.Providers.LibraPay.Signing.{ipn_values, verify_ipn_hmac-compute_hmac}
use bapp_connectors.Providers.LibraPay.Ipn.{Read, webhook_event_from_librapay-Read}

abbrev toy : Codec String String
toy = record {
  hexdigest = λ key text. key <> text;
  upper = λ s. s;
  byte_length = λ s. characters s;
  decimal = λ s. ok s;
  two_places = λ amount. amount;
  isdigit = λ s. truthy s && all_digits s;
}

abbrev sale_ipn : Ipn
sale_ipn =
    ("ORDER", "171")
    ∷ ("AMOUNT", "9.50")
    ∷ ("CURRENCY", "RON")
    ∷ ("DESC", "invoice 7")
    ∷ ("TRTYPE", "0")
    ∷ ("ACTION", "0")
    ∷ ("RC", "00")
    ∷ []

abbrev refund_ipn : Ipn
refund_ipn =
    ("ORDER", "171")
    ∷ ("AMOUNT", "9.50")
    ∷ ("CURRENCY", "RON")
    ∷ ("DESC", "invoice 7")
    ∷ ("TRTYPE", "24")
    ∷ ("ACTION", "0")
    ∷ ("RC", "00")
    ∷ []

-- An empty text is not the dash of a missing one.
enc_empty : enc toy (some "") ≡ "0"
unfolding enc characters str
enc_empty = refl

verify_ipn_hmac-compute_hmac_example :
    let signature = compute_hmac toy (ipn_values ipn_fields sale_ipn) "k" in
    (verify_ipn_hmac toy sale_ipn "k" ≡ (signature == ""))
    × (verify_ipn_hmac toy (put "P_SIGN" signature sale_ipn) "k" ≡ true)
verify_ipn_hmac-compute_hmac_example = verify_ipn_hmac-compute_hmac toy (λ s. refl) sale_ipn "k"

webhook_event_from_librapay-Read_example :
    Read toy sale_ipn (webhook_event_from_librapay toy sale_ipn)
webhook_event_from_librapay-Read_example = webhook_event_from_librapay-Read toy sale_ipn

-- A body says which IPN it stands for.
abbrev fields_of : String → Ipn
fields_of body = if body == "refund" then refund_ipn else sale_ipn

abbrev platform : Platform String String
platform = record {
  hmac_sha256 = λ secret body. secret <> body;
  hmac_sha1 = λ secret body. secret <> body;
  sha256 = λ body. body;
  stamp = λ t body. t <> "." <> body;
  loads = λ body. dict_value body;
  loads_text = λ text. dict_value text;
  decode = λ body. body;
  is_empty_body = λ body. not (truthy body);
}

abbrev request_of : String → Request String
request_of body = record {
  provider = "librapay";
  headers = [];
  body = body;
  signature_method = none;
  signature_header = "";
  secret = "";
}

abbrev event_of_body : String → WebhookEvent String
event_of_body body = record {
  event_type = "unknown";
  provider = "librapay";
  provider_event_type = "";
  payload = json_payload body;
  idempotency_key = "librapay:" <> body;
  signature_valid = true;
}

sale_dispatches : dispatch platform (request_of "sale") ≡ ok (event_of_body "sale")
unfolding dispatch compute_idempotency_key
sale_dispatches = refl

refund_dispatches : dispatch platform (request_of "refund") ≡ ok (event_of_body "refund")
unfolding dispatch compute_idempotency_key
refund_dispatches = refl

refund-OnlyDuplicate_example :
    let parser = some (parse_webhook toy fields_of) in
    let t' =
      (receive platform true
        (request_of "sale")
        none
        parser
        "u1"
        (record { rows = []; sent = [] })).1 in
    (parse_webhook toy fields_of [] "refund" ≡ ok (some (told (fields_of "refund"))))
    × ((told (fields_of "refund")).event_type ≡ "payment.refunded")
    × OnlyDuplicate
        (told (fields_of "refund")).idempotency_key
        t'
        (receive platform true (request_of "refund") none parser "u2" t')
refund-OnlyDuplicate_example =
    refund-OnlyDuplicate toy fields_of platform (request_of "sale") (request_of "refund") none "u1"
      "u2" (record { rows = []; sent = [] }) (event_of_body "sale") (event_of_body "refund") "9.50"
      sale_dispatches refund_dispatches refl refl refl refl

abbrev adapter : Adapter String
adapter = record {
  merchant = "m";
  terminal = "t";
  merchant_name = "Shop";
  merchant_url = "https://shop.ro";
  merchant_email = "a@shop.ro";
  key = "k";
  back_url = "";
}

abbrev fresh : Fresh
fresh = record { order_id = "171"; timestamp = "20260131120000"; nonce = "ab" }

-- The state counts the calls.
abbrev accept : Dict String String → Action ℕ RefundResponse
accept form n = (ok (record { status_code = 200; text = "1" }), n + 1)

create_checkout_session-Opened_example : Answers toy adapter fresh true (
    create_checkout_session toy adapter fresh "9.50" "" "Order" "invoice 7" "https://shop.ro/ok" "")
unfolding characters
create_checkout_session-Opened_example =
    create_checkout_session-Opened toy adapter fresh "9.50" "" "Order" "invoice 7"
      "https://shop.ro/ok" ""
