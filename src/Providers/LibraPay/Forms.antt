-- ===== src/Providers/LibraPay/Forms.antt =====
-- The forms that providers/payment/librapay posts: checkouts and refunds, of client.py and adapter.py.
pub mod Checkout
pub mod Refunds
use bapp_connectors.Base.{
  Bool, Option, String, [], if◌then◌else◌, leb, ltb, none, not, or_else, prefix, some, str, truthy,
  ℕ, ◌&&◌, ◌<>◌, ◌==◌, ◌∷◌, string_key,
}
use bapp_connectors.Base.Dict.{Dict}
use bapp_connectors.Errors.{
  Exn, connector, exception, new_error, new_status_error, provider_error, requests_error,
  validation_error,
}
use bapp_connectors.Effect.{Action, Outcome, catch, lift, ok, raise, throw, ◌>>=◌, ◌>>◌}
use bapp_connectors.Webhooks.Signatures.{lstrip, rstrip}
use bapp_connectors.Providers.LibraPay.{Codec, characters, compute_hmac, field}

-- the settings of an adapter
pub record Adapter {ℓ} (K : Type ℓ) : Type ℓ where
  pub merchant : String
  pub terminal : String
  pub merchant_name : String
  pub merchant_url : String
  pub merchant_email : String
  -- no bytes where there is no key in hexadecimal
  pub key : K
  pub back_url : String

-- What `generate_order_id`, the clock and `os.urandom` yield for a form.
pub record Fresh : Type 0 where
  pub order_id : String
  pub timestamp : String
  pub nonce : String

pub record Session : Type 0 where
  pub session_id : String
  pub currency : String
  pub description : String
  pub form : Dict String String

pub record RefundResponse : Type 0 where
  pub status_code : ℕ
  pub text : String

pub record Refund {ℓ} (D : Type ℓ) : Type ℓ where
  pub refund_id : String
  pub amount : D
  pub status : String
  pub trtype : String
  pub response : String

abbrev validation : String → Exn
validation message = connector (new_error validation_error message none)

-- `RequestException` is answered by a `ProviderError`
abbrev refund_failure : Exn → Exn
refund_failure (requests_error c message) =
    connector (new_error provider_error ("LibraPay refund request failed: " <> message) none)
refund_failure (connector e) = connector e
refund_failure (exception message) = exception message

module _ {ℓ} {K D : Type ℓ} (c : Codec K D) where
  unfoldable pub build_checkout_form :
      Adapter K → Fresh → D → String → String → String → String → Dict String String
  unfolding compute_hmac
  build_checkout_form a f amount currency description back_url data_custom =
      let desc = prefix 50 description in
      let data_ =
        ("AMOUNT", some (c.two_places amount))
        ∷ ("CURRENCY", some currency)
        ∷ ("ORDER", some f.order_id)
        ∷ ("DESC", some desc)
        ∷ ("MERCH_NAME", some a.merchant_name)
        ∷ ("MERCH_URL", some a.merchant_url)
        ∷ ("MERCHANT", some a.merchant)
        ∷ ("TERMINAL", some a.terminal)
        ∷ ("EMAIL", some a.merchant_email)
        ∷ ("TRTYPE", some "0")
        ∷ ("COUNTRY", none)
        ∷ ("MERCH_GMT", none)
        ∷ ("TIMESTAMP", some f.timestamp)
        ∷ ("NONCE", some f.nonce)
        ∷ ("BACKREF", some back_url)
        ∷ [] in
      ("AMOUNT", c.two_places amount)
      ∷ ("CURRENCY", currency)
      ∷ ("ORDER", f.order_id)
      ∷ ("DESC", desc)
      ∷ ("TERMINAL", a.terminal)
      ∷ ("TIMESTAMP", f.timestamp)
      ∷ ("NONCE", f.nonce)
      ∷ ("BACKREF", back_url)
      ∷ ("DATA_CUSTOM", data_custom)
      ∷ ("P_SIGN", compute_hmac c data_ a.key)
      ∷ []

  session_from : Dict String String → String → Session
  session_from form description = record {
    session_id = field "ORDER" form;
    currency = field "CURRENCY" form;
    description = or_else description (field "DESC" form);
    form = form;
  }

  -- The identifier goes into DESC; the text of DATA_CUSTOM is an argument.
  unfoldable pub create_checkout_session :
      Adapter K → Fresh → D → String → String → String → String → String → Outcome Session
  unfolding build_checkout_form session_from characters
  create_checkout_session a f amount currency description identifier success_url data_custom =
      let currency = c.upper (or_else currency "RON") in
      let back_url = or_else success_url a.back_url in
      if not (currency == "RON")
      then raise (validation ("LibraPay accepts only RON payments, not " <> currency <> "."))
      else if ltb 80 (characters back_url)
      then raise (
          validation (
            "LibraPay return URL is "
            <> str (characters back_url)
            <> " characters; the limit is 80."))
      else ok (
          session_from (build_checkout_form a f amount currency identifier back_url data_custom)
            description)

  unfoldable pub build_refund_form :
      String → D → String → String → String → Fresh → K → Dict String String
  unfolding compute_hmac
  build_refund_form order_id amount terminal trtype back_url f key =
      let signature =
        compute_hmac c
          (("AMOUNT", some (c.two_places amount))
            ∷ ("ORDER", some order_id)
            ∷ ("TERMINAL", some terminal)
            ∷ ("TRTYPE", some trtype)
            ∷ ("TIMESTAMP", some f.timestamp)
            ∷ ("NONCE", some f.nonce)
            ∷ ("BACKREF", some back_url)
            ∷ [])
          key in
      ("AMOUNT", c.two_places amount)
      ∷ ("ORDER", order_id)
      ∷ ("TERMINAL", terminal)
      ∷ ("TRTYPE", trtype)
      ∷ ("TIMESTAMP", f.timestamp)
      ∷ ("NONCE", f.nonce)
      ∷ ("BACKREF", back_url)
      ∷ ("P_SIGN", signature)
      ∷ []

  -- what the answer to a refund tells
  pub refund_answer : String → D → String → RefundResponse → Outcome (Refund D)
  unfolding lstrip rstrip
  refund_answer payment_id amount trtype response =
      let body = rstrip (lstrip response.text) in
      if leb 400 response.status_code
      then raise (
          connector (
            new_status_error provider_error
              ("LibraPay refund HTTP " <> str response.status_code <> ": " <> prefix 300 body)
              response.status_code))
      else ok (record {
        refund_id = payment_id;
        amount = amount;
        status = if body == "1" then "completed" else "unknown";
        trtype = trtype;
        response = prefix 1000 body;
      })

  -- `call` is the HTTP client's, for a form and without retries.
  unfoldable pub refund {κ} :
      {W : Type κ}
      → Adapter K
      → Fresh
      → (Dict String String → Action W RefundResponse)
      → String
      → Option D
      → Bool
      → Action W (Refund D)
  unfolding build_refund_form refund_answer
  refund a f call payment_id none full =
      throw (validation "LibraPay refunds need the amount (the original total for a full refund).")
  refund a f call payment_id (some amount) full =
      let back_url = or_else a.back_url a.merchant_url in
      let trtype = if full then "24" else "25" in
      if c.isdigit payment_id
      then (do
        response ←
            catch (call (build_refund_form payment_id amount a.terminal trtype back_url f a.key))
              (λ e. throw (refund_failure e))
        lift (refund_answer payment_id amount trtype response))
      else throw
          (validation ("LibraPay refunds take the numeric ORDER, got '" <> payment_id <> "'."))
