-- ===== src/Providers/LibraPay/Ipn.antt =====
-- The payments that IPNs confirm.
use bapp_connectors.Base.{
  Bool, Bool-cases, Option, String, arith, false, if◌then◌else◌, inl, inr, none, not, refl, some,
  sym, true, truthy, ◌&&◌, ◌==◌, ◌||◌, ◌≡◌, string_key,
}
use bapp_connectors.Providers.LibraPay.{
  Codec, Ipn, PaymentEvent, PaymentResult, amount_text, confirmed, event_type_of, event_with, field,
  ipn_result, ipn_status, is_refund, is_settled, payment_result_from_ipn,
  webhook_event_from_librapay,
}
use bapp_connectors.Effect.{Outcome, map_ok, ok, raise}

abbrev pub is_some {ℓ} : {A : Type ℓ} → Option A → Bool
is_some none = false
is_some (some _) = true

abbrev type_by : Bool → Bool → Bool → Bool → Bool → String
type_by desc approved code back failed =
    if not desc
    then "unknown"
    else if approved && code
    then if back then "payment.refunded" else "payment.completed"
    else if failed
    then "payment.failed"
    else "unknown"

type_by_lem :
    (desc approved code back failed : Bool)
    → ((type_by desc approved code back failed == "payment.completed")
        ≡ (desc && approved && code && not back))
      × ((type_by desc approved code back failed == "payment.refunded")
          ≡ (desc && approved && code && back))
type_by_lem false approved code back failed = (refl, refl)
type_by_lem true true true true failed = (refl, refl)
type_by_lem true true true false failed = (refl, refl)
type_by_lem true true false back true = (refl, refl)
type_by_lem true true false back false = (refl, refl)
type_by_lem true false code back true = (refl, refl)
type_by_lem true false code back false = (refl, refl)

type_by_told :
    (desc approved code back failed : Bool)
    → desc && approved && code ≡ true
    → let t = type_by desc approved code back failed in truthy t && not (t == "unknown") ≡ true
type_by_told false approved code back failed h = absurd cc
type_by_told true false code back failed h = absurd cc
type_by_told true true false back failed h = absurd cc
type_by_told true true true true failed h = refl
type_by_told true true true false failed h = refl

pub event_type_told :
    (d : Ipn)
    → is_settled d ≡ true
    → truthy (event_type_of d) && not (event_type_of d == "unknown") ≡ true
event_type_told d =
    let action = field "ACTION" d in
    type_by_told (truthy (field "DESC" d)) (action == "0") (field "RC" d == "00") (is_refund d)
      (action == "2" || action == "3")

module _ {ℓ} {K D : Type ℓ} (c : Codec K D) where
  -- What the payment of an event, where there is one, is.
  abbrev pub Confirms : Ipn → Option (PaymentResult D) → Type ℓ
  Confirms d none = Unit
  Confirms d (some p) =
      (p.status ≡ "approved")
      × (p.reference ≡ field "DESC" d)
      × (c.decimal (amount_text d) ≡ ok p.amount)

  -- The event has a payment exactly where its type says that one was completed, and that is where the
  -- IPN settles a sale.
  abbrev pub Classified : Ipn → PaymentEvent D → Type ℓ
  Classified d event =
      ((event.event_type == "payment.completed") ≡ (is_settled d && not (is_refund d)))
      × (is_some event.payment ≡ (is_settled d && not (is_refund d)))
      × ((event.event_type == "payment.refunded") ≡ (is_settled d && is_refund d))
      × Confirms d event.payment

  -- what is read of an IPN
  abbrev pub Read : Ipn → Outcome (PaymentEvent D) → Type ℓ
  Read d (ok event) = Classified d event
  Read d (raise e) =
      (is_settled d && not (is_refund d) ≡ true) × (c.decimal (amount_text d) ≡ raise e)

  pub event_types :
      (d : Ipn)
      → ((event_type_of d == "payment.completed") ≡ (is_settled d && not (is_refund d)))
        × ((event_type_of d == "payment.refunded") ≡ (is_settled d && is_refund d))
  event_types d =
      let action = field "ACTION" d in
      type_by_lem (truthy (field "DESC" d)) (action == "0") (field "RC" d == "00") (is_refund d)
        (action == "2" || action == "3")

  paid_status : (d : Ipn) → is_settled d && not (is_refund d) ≡ true → ipn_status d ≡ "approved"
  paid_status d h = ground arith

  event_with-Classified :
      (d : Ipn) (payment : Option (PaymentResult D))
      → is_some payment ≡ (is_settled d && not (is_refund d))
      → Confirms d payment
      → Classified d (event_with c d payment)
  unfolding event_with
  event_with-Classified d payment present right =
      ((event_types d).0, present, (event_types d).1, right)

  settled-Read :
      (d : Ipn)
      → is_settled d && not (is_refund d) ≡ true
      → (o : Outcome D) → c.decimal (amount_text d) ≡ o
      → Read d (
          map_ok
            (λ result. event_with c d (some (confirmed c d result)))
            (payment_result_from_ipn c d))
  unfolding payment_result_from_ipn confirmed
  settled-Read d paid (raise e) read = rw read (paid, read)
  settled-Read d paid (ok amount) read = rw read (
      event_with-Classified d (some (confirmed c d (ipn_result d amount))) (sym paid)
        (paid_status d paid, refl, read))

  -- For every IPN: an event is read, unless the IPN settles a sale and its amount is no decimal number.
  -- The event has a payment exactly when the IPN has a description, action 0 and code 00 and is not of a
  -- refund, and then and only then its type is that of a completed payment; the payment is approved, of
  -- the IPN's amount, and refers to the description. A refund with those is told as a refund.
  pub webhook_event_from_librapay-Read : (d : Ipn) → Read d (webhook_event_from_librapay c d)
  unfolding webhook_event_from_librapay payment_result_from_ipn confirmed
  webhook_event_from_librapay-Read d = elim (Bool-cases (is_settled d && not (is_refund d))) [
    | inr other ↦ rw other (event_with-Classified d none (sym other) tt)
    | inl paid ↦ rw paid (settled-Read d paid (c.decimal (amount_text d)) refl)
  ]
