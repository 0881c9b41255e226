-- ===== src/Providers/LibraPay.antt =====
-- providers/payment/librapay/client.py and mappers.py, with `parse_webhook` of adapter.py: signatures
-- and IPNs. The digest of `hmac`, `str.upper`,
-- the length of a text in bytes and the reading of a decimal number are fields of `Codec`. An IPN is the
-- dict of texts that `parse_qs` makes of a form.
pub mod Signing
pub mod Ipn
pub mod RefundNotice
pub mod Forms
pub mod Tests
use bapp_connectors.Base.{
  Bool, List, Option, String, [], if◌then◌else◌, leb, ltb, none, not, or_else, prefix, some, str,
  suc, text_or_empty, truthy, ℕ, ◌&&◌, ◌<>◌, ◌==◌, ◌||◌, ◌∷◌, string_key,
}
use bapp_connectors.Base.Dict.{Dict, get}
use bapp_connectors.Errors.{
  Exn, connector, exception, new_error, new_status_error, provider_error, requests_error,
  validation_error,
}
use bapp_connectors.Effect.{Action, Outcome, catch, lift, map_ok, ok, raise, throw, ◌>>=◌, ◌>>◌}
use bapp_connectors.Webhooks.Signatures.{lstrip, rstrip}
use bapp_connectors.Pricing.CustomerKey.{all_digits}
use bapp_connectors.Django.Webhooks.{Parsed, Parser}

-- Keys are of type `K`, decimal numbers of type `D`.
pub record Codec {ℓ} (K D : Type ℓ) : Type ℓ where
  -- `hmac.new(key, text.encode(), hashlib.sha1).hexdigest()`
  pub hexdigest : K → String → String
  pub upper : String → String
  pub byte_length : String → ℕ
  pub decimal : String → Outcome D
  -- `f"{amount:.2f}"`
  pub two_places : D → String
  -- `str.isdigit`, which takes the digits of Unicode, too
  pub isdigit : String → Bool

abbrev pub Ipn : Type 0
Ipn = Dict String String

-- `d.get(name, "")`
abbrev pub field : String → Ipn → String
field name d = text_or_empty (get name d)

abbrev pub ipn_fields : List String
ipn_fields =
    "TERMINAL" ∷ "TRTYPE" ∷ "ORDER" ∷ "AMOUNT" ∷ "CURRENCY" ∷ "DESC" ∷ "ACTION" ∷ "RC" ∷ "MESSAGE"
    ∷ "RRN" ∷ "INT_REF" ∷ "APPROVAL" ∷ "TIMESTAMP" ∷ "NONCE" ∷ []

-- The number of characters of a text.
pub characters : String → ℕ
characters String.[] = 0
characters (String.◌∷◌ c s) = suc (characters s)

abbrev is_refund : Ipn → Bool
is_refund d = field "TRTYPE" d == "24" || field "TRTYPE" d == "25"

pub record PaymentResult {ℓ} (D : Type ℓ) : Type ℓ where
  pub payment_id : String
  pub status : String
  pub amount : D
  pub currency : String
  pub reference : String
  pub extra : Dict String String

pub record PaymentEvent {ℓ} (D : Type ℓ) : Type ℓ where
  pub event_id : String
  pub event_type : String
  pub provider_event_type : String
  pub idempotency_key : String
  pub payment : Option (PaymentResult D)

-- `LIBRAPAY_ACTION_EVENTS.get(action, UNKNOWN)`
abbrev action_event : String → String
action_event action = if action == "2" || action == "3" then "payment.failed" else "unknown"

-- the status of `payment_result_from_ipn`
abbrev ipn_status : Ipn → String
ipn_status d =
    let rc = field "RC" d in
    if rc == "00" then (if is_refund d then "refunded" else "approved") else "error_" <> rc

abbrev pub is_settled : Ipn → Bool
is_settled d = truthy (field "DESC" d) && field "ACTION" d == "0" && field "RC" d == "00"

abbrev event_type_of : Ipn → String
event_type_of d =
    if not (truthy (field "DESC" d))
    then "unknown"
    else if field "ACTION" d == "0" && field "RC" d == "00"
    then if is_refund d then "payment.refunded" else "payment.completed"
    else action_event (field "ACTION" d)

-- `ipn_data.get("AMOUNT", 0)`, as a text
abbrev pub amount_text : Ipn → String
amount_text d = elim (get "AMOUNT" d) [ some amount ↦ amount | none ↦ "0" ]

-- what `payment_result_from_ipn` builds around an amount
abbrev ipn_result {ℓ} : {D : Type ℓ} → Ipn → D → PaymentResult D
ipn_result d amount = record {
  payment_id = elim (get "INT_REF" d) [ some ref ↦ ref | none ↦ field "ORDER" d ];
  status = ipn_status d;
  amount = amount;
  currency = field "CURRENCY" d;
  reference = "";
  extra =
      ("rc", field "RC" d)
      ∷ ("action", field "ACTION" d)
      ∷ ("message", field "MESSAGE" d)
      ∷ ("rrn", field "RRN" d)
      ∷ ("approval", field "APPROVAL" d)
      ∷ ("order", field "ORDER" d)
      ∷ ("desc", field "DESC" d)
      ∷ [];
}

module _ {ℓ} {K D : Type ℓ} (c : Codec K D) where
  -- `_enc`
  pub enc : Option String → String
  enc none = "-"
  enc (some value) = str (c.byte_length value) <> value

  pub hash_text : Dict String (Option String) → String
  unfolding enc
  hash_text [] = ""
  hash_text ((name, value) ∷ data_) = enc value <> hash_text data_

  unfoldable pub compute_hmac : Dict String (Option String) → K → String
  unfolding hash_text
  compute_hmac data_ key = c.upper (c.hexdigest key (hash_text data_))

  pub ipn_text : List String → Ipn → String
  unfolding enc
  ipn_text [] post_data = ""
  ipn_text (name ∷ names) post_data =
      let value = field name post_data in
      (if truthy value then enc (some value) else "-") <> ipn_text names post_data

  unfoldable pub verify_ipn_hmac : Ipn → K → Bool
  unfolding ipn_text
  verify_ipn_hmac post_data key =
      c.upper (c.hexdigest key (ipn_text ipn_fields post_data))
      == c.upper (field "P_SIGN" post_data)

  unfoldable pub payment_result_from_ipn : Ipn → Outcome (PaymentResult D)
  payment_result_from_ipn d = map_ok (ipn_result d) (c.decimal (amount_text d))

  pub confirmed : Ipn → PaymentResult D → PaymentResult D
  confirmed d result = record result {
    reference = field "DESC" d;
    currency = c.upper result.currency;
  }

  pub event_with : Ipn → Option (PaymentResult D) → PaymentEvent D
  event_with d payment =
      let action = field "ACTION" d in
      let rc = field "RC" d in
      let order = field "ORDER" d in
      record {
        event_id = or_else (field "INT_REF" d) order;
        event_type = event_type_of d;
        provider_event_type = "payment.action_" <> action <> ".rc_" <> rc;
        idempotency_key = order <> ":" <> action <> ":" <> rc;
        payment = payment;
      }

  unfoldable pub webhook_event_from_librapay : Ipn → Outcome (PaymentEvent D)
  unfolding payment_result_from_ipn confirmed event_with
  webhook_event_from_librapay d =
      if is_settled d && not (is_refund d)
      then map_ok (λ result. event_with d (some (confirmed d result))) (payment_result_from_ipn d)
      else ok (event_with d none)

  -- `parse_webhook`, with the reading of a body's fields, none of them where that fails
  unfoldable pub parse_webhook {κ} : {B : Type κ} → (B → Ipn) → Parser B
  unfolding webhook_event_from_librapay
  parse_webhook fields headers body =
      map_ok
        (λ event. some (record {
          event_type = event.event_type;
          provider_event_type = event.provider_event_type;
          idempotency_key = event.idempotency_key;
        }))
        (webhook_event_from_librapay (fields body))
