-- ===== src/Providers/LibraPay/Forms/Refunds.antt =====
-- Refunds are sent once.
use bapp_connectors.Providers.LibraPay.Forms.{
  Adapter, Fresh, Refund, RefundResponse, build_refund_form, refund_failure,
}
use bapp_connectors.Providers.LibraPay.{Codec}
use bapp_connectors.Base.{
  Bool, Option, String, false, if◌then◌else◌, ltb, none, or_else, some, true, ◌==◌, ◌≡◌, string_key,
}
use bapp_connectors.Base.Dict.{Dict}
use bapp_connectors.Effect.{Action, Outcome, ok, raise}
use bapp_connectors.Webhooks.Signatures.{lstrip, rstrip}

abbrev pub strip : String → String
strip s = rstrip (lstrip s)

-- what is called with the state, and what comes back
module _ {K D W : Type 0} (c : Codec K D) (a : Adapter K) (f : Fresh)
    (call : Dict String String → Action W RefundResponse) where
  abbrev pub refund_form : String → D → Bool → Dict String String
  refund_form payment_id amount full =
      build_refund_form c payment_id amount a.terminal (if full then "24" else "25")
        (or_else a.back_url a.merchant_url) f a.key

  -- Nothing is sent.
  abbrev pub Refused : W → Outcome (Refund D) × W → Type 0
  Refused w (ok r, w') = ⊥
  Refused w (raise e, w') = w' ≡ w

  -- What an answer, or a failure, turns into.
  abbrev pub Answered : String → D → Outcome RefundResponse → Outcome (Refund D) → Type 0
  Answered payment_id amount (ok response) (ok r) =
      (ltb response.status_code 400 ≡ true)
      × ((r.status == "completed") ≡ (strip response.text == "1"))
      × (r.amount ≡ amount)
      × (r.refund_id ≡ payment_id)
  Answered payment_id amount (ok response) (raise e) = ltb response.status_code 400 ≡ false
  Answered payment_id amount (raise e) (ok r) = ⊥
  Answered payment_id amount (raise e) (raise e') = e' ≡ refund_failure e

  abbrev pub Sent : Bool → String → D → Bool → W → Outcome (Refund D) × W → Type 0
  Sent true payment_id amount full w (o, w') =
      let sent = call (refund_form payment_id amount full) w in
      (w' ≡ sent.1) × Answered payment_id amount sent.0 o
  Sent false payment_id amount full w result = Refused w result

  abbrev pub Handled : String → Option D → Bool → W → Outcome (Refund D) × W → Type 0
  Handled payment_id none full w result = Refused w result
  Handled payment_id (some amount) full w result =
      Sent (c.isdigit payment_id) payment_id amount full w result
