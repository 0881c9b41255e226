-- ===== src/Providers/LibraPay/RefundNotice.antt =====
-- The IPN of a refund, received after the IPN of its sale.
use bapp_connectors.Providers.LibraPay.{
  Codec, Ipn, amount_text, event_type_of, event_with, field, is_refund, is_settled, parse_webhook,
  payment_result_from_ipn, webhook_event_from_librapay,
}
use bapp_connectors.Providers.LibraPay.Ipn.{event_type_told, event_types}
use mathlib.Core.Path.{subst}
use Prim.Native.String.append
use bapp_connectors.Base.{
  Bool, Option, String, ap, arith, false, not, refl, some, string_key, sym, true, truthy, ℕ, ◌&&◌,
  ◌<>◌, ◌==◌, ◌∙◌, ◌≡◌,
}
use bapp_connectors.Base.Dict.{Dict}
use bapp_connectors.Effect.{ok}
use bapp_connectors.Webhooks.Signatures.{Platform}
use bapp_connectors.Django.Webhooks.{Parsed, Table, receive}
use bapp_connectors.Django.Webhooks.SameKey.{OnlyDuplicate, Tells, normalise_key, receive_same_key}
use bapp_connectors.Webhooks.Dispatcher.{Request, WebhookEvent, dispatch}

truthy_append : (s t : String) → truthy t ≡ true → truthy (s <> t) ≡ true
truthy_append String.[] t h = ap truthy (append.nil t) ∙ h
truthy_append (String.◌∷◌ c s) t h = ap truthy (append.cons c s t)

settled_fields : (d : Ipn) → is_settled d ≡ true → (field "ACTION" d ≡ "0") × (field "RC" d ≡ "00")
settled_fields d h =
    let action : (field "ACTION" d == "0") ≡ true = ground arith in
    let code : (field "RC" d == "00") ≡ true = ground arith in
    ((string_key.same_iff _ _).0 action, (string_key.same_iff _ _).0 code)

both_left : (a b : Bool) → a && b ≡ true → a ≡ true
both_left true b h = refl
both_left false b h = absurd cc

not_paid : (a b : Bool) → a && b ≡ true → a && not b ≡ false
not_paid true true h = refl
not_paid true false h = absurd cc
not_paid false b h = refl

abbrev pub told : Ipn → Parsed
told d = record {
  event_type = event_type_of d;
  provider_event_type = "payment.action_" <> field "ACTION" d <> ".rc_" <> field "RC" d;
  idempotency_key = field "ORDER" d <> ":" <> field "ACTION" d <> ":" <> field "RC" d;
}

told-Tells : (d : Ipn) → is_settled d ≡ true → Tells (told d)
told-Tells d h =
    (event_type_told d h, truthy_append (field "ORDER" d) _ (ap truthy (append.cons ":" "" _)))

told_same :
    (d d' : Ipn)
    → is_settled d ≡ true
    → is_settled d' ≡ true
    → field "ORDER" d ≡ field "ORDER" d'
    → (told d).idempotency_key ≡ (told d').idempotency_key
told_same d d' h h' same =
    let (action, code) = settled_fields d h in
    let (action', code') = settled_fields d' h' in rw (same, action, code, action', code') refl

module _ {ℓ} {K D B : Type ℓ} (c : Codec K D) (fields : B → Ipn) where
  told_sale :
      (headers : Dict String String) (body : B) (amount : D)
      → is_settled (fields body) && not (is_refund (fields body)) ≡ true
      → c.decimal (amount_text (fields body)) ≡ ok amount
      → parse_webhook c fields headers body ≡ ok (some (told (fields body)))
  unfolding parse_webhook webhook_event_from_librapay payment_result_from_ipn event_with
  told_sale headers body amount paid read = rw (paid, read) refl

  told_refund :
      (headers : Dict String String) (body : B)
      → is_settled (fields body) && not (is_refund (fields body)) ≡ false
      → parse_webhook c fields headers body ≡ ok (some (told (fields body)))
  unfolding parse_webhook webhook_event_from_librapay event_with
  told_refund headers body back = rw back refl

  -- Where the IPN of a sale of a decimal amount has been received with a model, an IPN of a refund with
  -- the same ORDER that is accepted later is told by the parser with the type payment.refunded and the ORDER, the ACTION and the RC as its key, and
  -- yet it only marks the first row with that key as a duplicate, in the table as in the answer: every
  -- other row stays, no row is added and nothing is signalled.
  pub refund-OnlyDuplicate :
      {J : Type ℓ} (p : Platform B J) (sale back : Request B) (connection : Option ℕ)
      (uuid other : String) (t : Table J) (event event' : WebhookEvent J) (amount : D)
      → dispatch p sale ≡ ok event
      → dispatch p back ≡ ok event'
      → is_settled (fields sale.body) && not (is_refund (fields sale.body)) ≡ true
      → c.decimal (amount_text (fields sale.body)) ≡ ok amount
      → is_settled (fields back.body) && is_refund (fields back.body) ≡ true
      → field "ORDER" (fields sale.body) ≡ field "ORDER" (fields back.body)
      → let parser = some (parse_webhook c fields) in
        let t' = (receive p true sale connection parser uuid t).1 in
        (parse_webhook c fields back.headers back.body ≡ ok (some (told (fields back.body))))
        × ((told (fields back.body)).event_type ≡ "payment.refunded")
        × OnlyDuplicate
            (told (fields back.body)).idempotency_key
            t'
            (receive p true back connection parser other t')
  refund-OnlyDuplicate p sale back connection uuid other t event event' amount h h' paid read
        refunded same =
      let parser = parse_webhook c fields in
      let d = fields sale.body in
      let d' = fields back.body in
      let settled : is_settled d ≡ true = both_left (is_settled d) _ paid in
      let settled' : is_settled d' ≡ true = both_left (is_settled d') _ refunded in
      let key =
        normalise_key p parser sale event (told d)
          (told_sale sale.headers sale.body amount paid read) (told-Tells d settled) in
      let key' =
        normalise_key p parser back event' (told d')
          (told_refund back.headers back.body (not_paid _ _ refunded)) (told-Tells d' settled') in
      let marked =
        receive_same_key p parser sale back connection uuid other t event event' h h'
          (key ∙ told_same d d' settled settled' same ∙ sym key') in
      (
        told_refund back.headers back.body (not_paid _ _ refunded),
        (string_key.same_iff _ _).0 ((event_types c d').1 ∙ refunded),
        subst
            (λ j. OnlyDuplicate j (receive p true sale connection (some parser) uuid t).1 (
              receive p true back connection (some parser) other
                (receive p true sale connection (some parser) uuid t).1))
            key' marked,
      )
