-- ===== src/Django/Webhooks/SameKey.antt =====
-- Different webhooks that arrive under one key at services/webhook.py.
use bapp_connectors.Django.Webhooks.Receipt.{Marked}
use bapp_connectors.Django.Webhooks.{
  EventRow, Parsed, Parser, Received, Table, adopt, adopt_outcome, duplicate, normalise, persisted,
  receive,
}
use bapp_connectors.Base.{
  Option, String, inl, inr, length, not, or_else, refl, some, true, truthy, ℕ, ◌&&◌, ◌==◌, ◌≡◌,
  string_key,
}
use bapp_connectors.Effect.{Outcome, ok}
use bapp_connectors.Webhooks.Signatures.{Platform}
use bapp_connectors.Webhooks.Dispatcher.{Request, WebhookEvent, dispatch}
use bapp_connectors.Django.Webhooks.Duplicates.{receive-Recorded}

-- The first row with the key is returned as a duplicate and stored as one, every other row stays, and
-- nothing is signalled.
abbrev pub OnlyDuplicate {ℓ} :
    {J : Type ℓ} → String → Table J → Outcome (Received J) × Table J → Type ℓ
OnlyDuplicate {J = J} key t (o, t') =
    (row : EventRow J) × (o ≡ ok (persisted row))
    × Marked key t.rows row t'.rows
    × (row.status ≡ duplicate)
    × (length t'.rows ≡ length t.rows)
    × (t'.sent ≡ t.sent)

-- The parser told a type, and a key of the provider's own.
abbrev pub Tells : Parsed → Type 0
Tells parsed =
    (truthy parsed.event_type && not (parsed.event_type == "unknown") ≡ true)
    × (truthy parsed.idempotency_key ≡ true)

or_else-truthy : (s t : String) → truthy s ≡ true → or_else s t ≡ s
or_else-truthy String.[] t h = absurd cc
or_else-truthy (String.◌∷◌ c s) t h = refl

module _ {ℓ} {B J : Type ℓ} (p : Platform B J) (parser : Parser B) where
  pub normalise_key :
      (r : Request B) (event : WebhookEvent J) (parsed : Parsed)
      → parser r.headers r.body ≡ ok (some parsed)
      → Tells parsed
      → (normalise p true (some parser) r event).idempotency_key ≡ parsed.idempotency_key
  unfolding normalise adopt_outcome adopt
  normalise_key r event parsed h tells =
      rw (h, tells.0) (or_else-truthy parsed.idempotency_key event.idempotency_key tells.1)

  pub receive_same_key :
      (r again : Request B) (connection : Option ℕ) (uuid other : String) (t : Table J)
      (event event' : WebhookEvent J)
      → dispatch p r ≡ ok event
      → dispatch p again ≡ ok event'
      → (normalise p true (some parser) r event).idempotency_key
        ≡ (normalise p true (some parser) again event').idempotency_key
      → let t' = (receive p true r connection (some parser) uuid t).1 in
        OnlyDuplicate
          (normalise p true (some parser) again event').idempotency_key
          t'
          (receive p true again connection (some parser) other t')
  receive_same_key r again connection uuid other t event event' h h' same =
      let (_, _, _, there, _) = receive-Recorded p r connection (some parser) uuid t event h in
      let t' = (receive p true r connection (some parser) uuid t).1 in
      let (row, e, _, _, cases) =
        receive-Recorded p again connection (some parser) other t' event' h' in
      elim cases [
        | inl (_, marked, status, rows, sent) ↦ (row, e, marked, status, rows, sent)
        | inr (new, _, _, _) ↦ absurd cc
      ]
