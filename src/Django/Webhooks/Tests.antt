-- ===== src/Django/Webhooks/Tests.antt =====
-- Receiving webhooks at services/webhook.py on concrete inputs, with a toy digest.
use bapp_connectors.Base.{
  String, [], length, none, not, refl, some, true, truthy, ◌<>◌, ◌∷◌, ◌≡◌, ◌≢◌,
}
use bapp_connectors.Errors.{Exn}
use bapp_connectors.Effect.{ok, raise}
use bapp_connectors.Webhooks.Signatures.{Platform, dict_value, get_verifier, verify}
use bapp_connectors.Webhooks.Dispatcher.{
  Request, WebhookEvent, compute_idempotency_key, dispatch, json_payload, verify_signature,
}
use bapp_connectors.Django.Webhooks.{EventRow, Table, duplicate, normalise, persisted, receive}
use bapp_connectors.Django.Webhooks.Duplicates.{Recorded, receive-Recorded, receive_again}
use bapp_connectors.Django.Webhooks.Forged.{OnlyRejected, forged_not_accepted}

-- The digest puts the secret before the body.
abbrev toy : Platform String String
toy = record {
  hmac_sha256 = λ secret body. secret <> body;
  hmac_sha1 = λ secret body. secret <> body;
  sha256 = λ body. body;
  stamp = λ t body. t <> "." <> body;
  loads = λ body. dict_value body;
  loads_text = λ text. dict_value text;
  decode = λ body. body;
  is_empty_body = λ body. not (truthy body);
}

abbrev signed_with : String → Request String
signed_with signature = record {
  provider = "shop";
  headers = ("X-Signature", signature) ∷ ("Cookie", "c") ∷ [];
  body = "paid";
  signature_method = some "hmac-sha256";
  signature_header = "X-Signature";
  secret = "k";
}

genuine : Request String
genuine = signed_with "sha256=kpaid "

forged : Request String
forged = signed_with "sha256=xpaid"

event : WebhookEvent String
event = record {
  event_type = "unknown";
  provider = "shop";
  provider_event_type = "";
  payload = json_payload "paid";
  idempotency_key = "shop:paid";
  signature_valid = true;
}

genuine_dispatches : dispatch toy genuine ≡ ok event
unfolding dispatch event genuine compute_idempotency_key verify get_verifier
genuine_dispatches = refl

forged_refused : verify_signature toy forged ≢ ok true
unfolding verify_signature forged verify get_verifier
forged_refused h = cc

abbrev empty : Table String
empty = record { rows = []; sent = [] }

receive-Recorded_example :
    Recorded
      (normalise toy true none genuine event).idempotency_key
      empty
      (receive toy true genuine none none "u1" empty)
receive-Recorded_example =
    receive-Recorded toy genuine none none "u1" empty event genuine_dispatches

receive_again_example :
    let t' = (receive toy true genuine none none "u1" empty).1 in
    let (o, t'') = receive toy true genuine none none "u2" t' in
    (row : EventRow String) × (o ≡ ok (persisted row))
    × (row.status ≡ duplicate)
    × (length t''.rows ≡ length t'.rows)
    × (t''.sent ≡ t'.sent)
receive_again_example = receive_again toy genuine none none "u1" "u2" empty event genuine_dispatches

forged_not_accepted_example :
    ((e : Exn) × ((receive toy true forged none none "u1" empty).0 ≡ raise e))
    × OnlyRejected empty (receive toy true forged none none "u1" empty).1
forged_not_accepted_example =
    forged_not_accepted toy forged true none none "u1" empty forged_refused
