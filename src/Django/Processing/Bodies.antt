-- ===== src/Django/Processing/Bodies.antt =====
-- The body of a webhook, stored by core/webhooks/dispatcher.py and rebuilt by stored_webhook_body.
use bapp_connectors.Base.{String, ap, none, refl, some, ◌∙◌, ◌≡◌, string_key}
use bapp_connectors.Effect.{ok}
use bapp_connectors.Webhooks.Signatures.{Loaded, Platform, dict_value, not_json, other_value}
use bapp_connectors.Webhooks.Dispatcher.{
  Payload, Request, WebhookEvent, dispatch, json_payload, raw_payload,
}
use bapp_connectors.Webhooks.Dispatcher.Payloads.{dispatch-payload_of, payload_of}
use bapp_connectors.Django.Processing.{Encoding, stored_webhook_body}

module _ {ℓ} {B J : Type ℓ} (p : Platform B J) (enc : Encoding B J) where
  -- What the library's functions do on a body that reads as given: a text gives its bytes back, and a
  -- dict that is no text under `raw` reads again as itself.
  abbrev pub Faithful : B → Loaded J → Type ℓ
  Faithful body (dict_value j) = (enc.raw_text j ≡ none) × (p.loads (enc.dumps j) ≡ dict_value j)
  Faithful body other_value = Unit {ℓ}
  Faithful body not_json = enc.encode (p.decode body) ≡ body

  stored_text : (text : String) → stored_webhook_body enc (raw_payload text) ≡ enc.encode text
  unfolding stored_webhook_body
  stored_text text = refl

  stored_dict :
      (j : J) → enc.raw_text j ≡ none → stored_webhook_body enc (json_payload j) ≡ enc.dumps j
  unfolding stored_webhook_body
  stored_dict j h = rw (stored_webhook_body, h) refl

  -- The body that is rebuilt from the payload of an accepted webhook reads as the body that came in:
  -- where that was a text in UTF-8 and no JSON, it is the very same body, and where it was a
  -- dict, other than a text under the one key raw, it reads as the same dict, provided that the JSON
  -- library reads what it writes.
  pub stored_webhook_body-loads :
      (r : Request B) (event : WebhookEvent J)
      → dispatch p r ≡ ok event
      → Faithful r.body (p.loads r.body)
      → (p.loads (stored_webhook_body enc event.payload) ≡ p.loads r.body)
        × (p.loads r.body ≡ not_json → stored_webhook_body enc event.payload ≡ r.body)
  stored_webhook_body-loads r event h faithful =
      by_reading (p.loads r.body) refl (dispatch-payload_of p r event h) faithful
    where
      impossible : none ≡ some event.payload → ⊥
      impossible e = cc

      is_same : (x y : Payload J) → some x ≡ some y → y ≡ x
      is_same x y e = cc

      no_dict : {j : J} → dict_value j ≡ not_json → ⊥
      no_dict e = cc

      by_reading :
          (x : Loaded J)
          → p.loads r.body ≡ x
          → payload_of p r x ≡ some event.payload
          → Faithful r.body x
          → (p.loads (stored_webhook_body enc event.payload) ≡ x)
            × (x ≡ not_json → stored_webhook_body enc event.payload ≡ r.body)
      by_reading (dict_value j) q e f = (
        ap (λ y. p.loads (stored_webhook_body enc y)) (is_same (json_payload j) event.payload e)
            ∙ ap p.loads (stored_dict j f.0)
            ∙ f.1,
        λ n. absurd (no_dict n),
      )
      by_reading other_value q e f = absurd (impossible e)
      by_reading not_json q e f =
          let same =
            ap (stored_webhook_body enc) (is_same (raw_payload (p.decode r.body)) event.payload e)
            ∙ stored_text (p.decode r.body)
            ∙ f in
          (ap p.loads same ∙ q, λ n. same)
