-- ===== src/Providers/LibraPay/Forms/Checkout.antt =====
-- Checkout sessions keep to the limits of LibraPay's forms.
use bapp_connectors.Providers.LibraPay.Forms.{
  Adapter, Fresh, Session, build_checkout_form, create_checkout_session, session_from,
}
use bapp_connectors.Providers.LibraPay.{Codec, characters, compute_hmac, field}
use bapp_connectors.Base.{
  Bool, Bool-cases, Option, String, [], arith, false, inl, inr, leb, leb→le, ltb, none, or_else,
  prefix, refl, some, string_key, suc, true, zero, ℕ, ◌&&◌, ◌==◌, ◌∷◌, ◌≡◌, ◌≤◌,
}
use bapp_connectors.Base.Dict.{Dict, get}
use bapp_connectors.Effect.{Outcome, ok, raise}
use bapp_connectors.Errors.{connector, new_error, validation_error}

characters-prefix : (n : ℕ) (s : String) → characters (prefix n s) ≤ n
unfolding characters
characters-prefix zero s = omega arith
characters-prefix (suc n) String.[] = omega arith
characters-prefix (suc n) (String.◌∷◌ x s) = omega (arith, characters-prefix n s)

too_long : (n : ℕ) → leb n 80 ≡ false → ltb 80 n ≡ true
too_long n h = ground arith

not_too_long : (n : ℕ) → leb n 80 ≡ true → ltb 80 n ≡ false
not_too_long n h = ground arith

-- what LibraPay signs: the fields of the form in its order, with those that the form does not carry
abbrev pub signed_fields {ℓ} :
    {K : Type ℓ} → Adapter K → Dict String String → Dict String (Option String)
signed_fields a form =
    ("AMOUNT", get "AMOUNT" form)
    ∷ ("CURRENCY", get "CURRENCY" form)
    ∷ ("ORDER", get "ORDER" form)
    ∷ ("DESC", get "DESC" form)
    ∷ ("MERCH_NAME", some a.merchant_name)
    ∷ ("MERCH_URL", some a.merchant_url)
    ∷ ("MERCHANT", some a.merchant)
    ∷ ("TERMINAL", get "TERMINAL" form)
    ∷ ("EMAIL", some a.merchant_email)
    ∷ ("TRTYPE", some "0")
    ∷ ("COUNTRY", none)
    ∷ ("MERCH_GMT", none)
    ∷ ("TIMESTAMP", get "TIMESTAMP" form)
    ∷ ("NONCE", get "NONCE" form)
    ∷ ("BACKREF", get "BACKREF" form)
    ∷ []

module _ {ℓ} {K D : Type ℓ} (c : Codec K D) (a : Adapter K) (f : Fresh) where
  abbrev pub asked_currency : String → String
  asked_currency currency = c.upper (or_else currency "RON")

  abbrev pub Opened : Session → Type 0
  Opened session =
      (session.session_id ≡ f.order_id)
      × (session.currency ≡ "RON")
      × (characters (field "DESC" session.form) ≤ 50)
      × (characters (field "BACKREF" session.form) ≤ 80)
      × (field "P_SIGN" session.form ≡ compute_hmac c (signed_fields a session.form) a.key)

  -- what a session is asked for with, and the answer
  abbrev pub Answers : Bool → Outcome Session → Type 0
  Answers true (ok session) = Opened session
  Answers false (raise (connector e)) = e.kind ≡ validation_error
  Answers _ _ = ⊥

  build_checkout_form-Opened :
      (amount : D) (identifier back_url description data_custom : String)
      → characters back_url ≤ 80
      → Opened (
          session_from c
            (build_checkout_form c a f amount "RON" identifier back_url data_custom)
            description)
  unfolding session_from build_checkout_form
  build_checkout_form-Opened amount identifier back_url description data_custom h =
      (refl, refl, characters-prefix 50 identifier, h, refl)

  -- A checkout is opened exactly for RON, the default, and a return URL of at most 80 characters; it is
  -- a validation error otherwise. The session's id is the ORDER of the form, a description and a return
  -- URL keep to the limits of 50 and 80 characters, and the form's P_SIGN signs its own fields.
  pub create_checkout_session-Opened :
      (amount : D) (currency description identifier success_url data_custom : String)
      → let fits =
          asked_currency currency == "RON"
          && leb (characters (or_else success_url a.back_url)) 80 in
        let answer =
          create_checkout_session c a f amount currency description identifier success_url
            data_custom in
        Answers fits answer
  unfolding create_checkout_session new_error
  create_checkout_session-Opened amount currency description identifier success_url data_custom =
      let asked = asked_currency currency in
      let back_url = or_else success_url a.back_url in
      elim (Bool-cases (asked == "RON")) [
        | inr other ↦ rw other refl
        | inl ron ↦ elim (Bool-cases (leb (characters back_url) 80)) [
          | inr long ↦ rw (ron, long, too_long _ long) refl
          | inl short ↦
              let e : asked ≡ "RON" = (string_key.same_iff asked "RON").0 ron in
              rw (ron, short, not_too_long _ short, e)
                (build_checkout_form-Opened amount identifier back_url description data_custom
                  (leb→le _ _ short))
        ]
      ]
