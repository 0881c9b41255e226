-- ===== src/Providers/Netopia/Genuine.antt =====
-- The tokens that are accepted.
use bapp_connectors.Providers.Netopia.{
  Tokens, any_verifies, audience, check_claims, check_header, get_header, is_expired, is_text,
  keys_or_default, rejected_or_raised, require_verified, split_dot, verification_error_name,
  verification_keys, verify_ipn_token, verify_webhook, with_decoded, with_parts,
}
use bapp_connectors.Webhooks.Signatures.{Loaded, dict_value, lstrip, not_json, other_value, rstrip}
use bapp_connectors.Base.Dict.{Dict}
use bapp_connectors.Errors.{connector, exception, requests_error}
use bapp_connectors.Effect.{Outcome, ok, raise}
use bapp_connectors.Base.{
  Bool, Bool-cases, List, Option, String, [], ap, false, if◌then◌else◌, inl, inr, none, not, refl,
  some, true, truthy, ℕ, ◌<>◌, ◌==◌, ◌↔◌, ◌∙◌, ◌∷◌, ◌≡◌, string_key,
}
use mathlib.Core.Path.{subst}

untrue : (b : Bool) → not b ≡ true → b ≡ false
untrue true h = absurd cc
untrue false h = refl

abbrev failed {ℓ} : {A : Type ℓ} → Outcome A
failed = raise (exception verification_error_name)

module _ {ℓ} {J B : Type ℓ} (t : Tokens J B) where
  -- The parts of a token: header, claims and signature.
  abbrev pub Parts : Type ℓ
  Parts = String × String × String × J × B

  -- A token of three parts, signed with RS512 by one of the keys, of Netopia, for this point of sale
  -- and for this very body, and not expired where it states when it does.
  abbrev pub IsGenuine : B → String → List String → ℕ → String → J → Type ℓ
  IsGenuine body pos_signature keys now token claims =
      (parts : Parts) × (let (head, middle, last, header, signature) = parts in
        (split_dot (rstrip (lstrip token)) ≡ (head, middle ∷ last ∷ []))
        × (t.json_of head ≡ dict_value header)
        × (t.json_of middle ≡ dict_value claims)
        × (t.decode last ≡ some signature)
        × (is_text "RS512" (t.claim "alg" header) ≡ true)
        × (any_verifies t (keys_or_default t keys) signature (head <> "." <> middle) ≡ ok true))
      × (truthy pos_signature ≡ true)
      × (is_text "NETOPIA Payments" (t.claim "iss" claims) ≡ true)
      × (is_text pos_signature (audience (t.claim "aud" claims)) ≡ true)
      × (is_text (t.body_hash body) (t.claim "sub" claims) ≡ true)
      × (is_expired now (t.claim "exp" claims) ≡ false)

  all_four :
      (a b c d : Bool) (rest : Outcome J) (claims : J)
      → (if a
          then if b then if c then if d then rest else failed else failed else failed
          else failed)
        ≡ ok claims
      → (a ≡ true) × (b ≡ true) × (c ≡ true) × (d ≡ true) × (rest ≡ ok claims)
  all_four true true true true rest claims h = (refl, refl, refl, refl, h)
  all_four true true true false rest claims h = absurd cc
  all_four true true false d rest claims h = absurd cc
  all_four true false c d rest claims h = absurd cc
  all_four false b c d rest claims h = absurd cc

  both_first :
      (a : Bool) (o : Outcome Bool) (rest : Outcome J) (claims : J)
      → (if a then require_verified o rest else failed) ≡ ok claims
      → (a ≡ true) × (o ≡ ok true) × (rest ≡ ok claims)
  both_first true (ok true) rest claims h = (refl, refl, h)
  both_first true (ok false) rest claims h = absurd cc
  both_first true (raise e) rest claims h = absurd cc
  both_first false o rest claims h = absurd cc

  first_ok :
      (a : Bool) (rest : Outcome J) (claims : J)
      → (if a then rest else failed) ≡ ok claims
      → (a ≡ true) × (rest ≡ ok claims)
  first_ok true rest claims h = (refl, h)
  first_ok false rest claims h = absurd cc

  ok_same : (c claims : J) → ok c ≡ ok claims → c ≡ claims
  ok_same c claims h = ap (held c) h
    where
      held : J → Outcome J → J
      held other (ok x) = x
      held other (raise e) = other

  module _ (body : B) (pos_signature : String) (keys : List String) (now : ℕ) where
    abbrev Signed : String → Loaded J → B → Type 0
    Signed signed (dict_value header) signature =
        (is_text "RS512" (t.claim "alg" header) ≡ true)
        × (any_verifies t (keys_or_default t keys) signature signed ≡ ok true)
    Signed signed _ signature = ⊥

    abbrev Claimed : Loaded J → J → Type ℓ
    Claimed loaded claims =
        (loaded ≡ dict_value claims)
        × (is_text "NETOPIA Payments" (t.claim "iss" claims) ≡ true)
        × (is_text pos_signature (audience (t.claim "aud" claims)) ≡ true)
        × (is_text (t.body_hash body) (t.claim "sub" claims) ≡ true)
        × (is_expired now (t.claim "exp" claims) ≡ false)

    check_claims-Claimed :
        (loaded : Loaded J) (claims : J)
        → check_claims t body pos_signature keys now loaded ≡ ok claims
        → Claimed loaded claims
    unfolding check_claims
    check_claims-Claimed (dict_value c) claims h =
        let (iss, aud, sub, alive, same) =
          all_four (is_text "NETOPIA Payments" (t.claim "iss" c))
            (is_text pos_signature (audience (t.claim "aud" c)))
            (is_text (t.body_hash body) (t.claim "sub" c)) (not (is_expired now (t.claim "exp" c)))
            (ok c) claims h in
        subst (Claimed (dict_value c)) (ok_same c claims same) (refl, iss, aud, sub, untrue _ alive)
    check_claims-Claimed other_value claims h = absurd cc
    check_claims-Claimed not_json claims h = absurd cc

    Claimed-check_claims :
        (loaded : Loaded J) (claims : J)
        → Claimed loaded claims
        → check_claims t body pos_signature keys now loaded ≡ ok claims
    unfolding check_claims
    Claimed-check_claims loaded claims (e, iss, aud, sub, alive) = rw (e, iss, aud, sub, alive) refl

    signed_dict :
        (signed : String) (d : J) (loaded : Loaded J) (b : B) (claims : J)
        → check_header t body pos_signature keys now signed (dict_value d) loaded b ≡ ok claims
        → (h : J) × (b' : B) × (dict_value d ≡ dict_value h)
          × (some b ≡ some b')
          × (is_text "RS512" (t.claim "alg" h) ≡ true)
          × (any_verifies t (keys_or_default t keys) b' signed ≡ ok true)
          × Claimed loaded claims
    unfolding check_header
    signed_dict signed d loaded b claims h =
        let (alg, sign, rest) =
          both_first (is_text "RS512" (t.claim "alg" d))
            (any_verifies t (keys_or_default t keys) b signed)
            (check_claims t body pos_signature keys now loaded) claims h in
        (d, b, refl, refl, alg, sign, check_claims-Claimed loaded claims rest)

    with_decoded_lem :
        (signed : String) (header loaded : Loaded J) (signature : Option B) (claims : J)
        → with_decoded t body pos_signature keys now signed header loaded signature ≡ ok claims
        → (h : J) × (b : B) × (header ≡ dict_value h)
          × (signature ≡ some b)
          × (is_text "RS512" (t.claim "alg" h) ≡ true)
          × (any_verifies t (keys_or_default t keys) b signed ≡ ok true)
          × Claimed loaded claims
    unfolding with_decoded check_header
    with_decoded_lem signed not_json loaded signature claims h = absurd cc
    with_decoded_lem signed (dict_value d) not_json signature claims h = absurd cc
    with_decoded_lem signed other_value not_json signature claims h = absurd cc
    with_decoded_lem signed (dict_value d) (dict_value c) none claims h = absurd cc
    with_decoded_lem signed (dict_value d) other_value none claims h = absurd cc
    with_decoded_lem signed other_value (dict_value c) none claims h = absurd cc
    with_decoded_lem signed other_value other_value none claims h = absurd cc
    with_decoded_lem signed other_value (dict_value c) (some b) claims h = absurd cc
    with_decoded_lem signed other_value other_value (some b) claims h = absurd cc
    with_decoded_lem signed (dict_value d) other_value (some b) claims h =
        signed_dict signed d other_value b claims h
    with_decoded_lem signed (dict_value d) (dict_value c) (some b) claims h =
        signed_dict signed d (dict_value c) b claims h

    -- what the parts of a token that is accepted hold
    abbrev Opened : String × List String → J → Type ℓ
    Opened split claims =
        (parts : Parts) × (let (head, middle, last, header, signature) = parts in
          (split ≡ (head, middle ∷ last ∷ []))
          × (t.json_of head ≡ dict_value header)
          × (t.json_of middle ≡ dict_value claims)
          × (t.decode last ≡ some signature)
          × (is_text "RS512" (t.claim "alg" header) ≡ true)
          × (any_verifies t (keys_or_default t keys) signature (head <> "." <> middle) ≡ ok true))
        × Claimed (dict_value claims) claims

    with_parts_lem :
        (split : String × List String) (claims : J)
        → with_parts t body pos_signature keys now split ≡ ok claims
        → Opened split claims
    unfolding with_parts
    with_parts_lem (head, []) claims h = absurd cc
    with_parts_lem (head, middle ∷ []) claims h = absurd cc
    with_parts_lem (head, middle ∷ last ∷ more ∷ pieces) claims h = absurd cc
    with_parts_lem (head, middle ∷ last ∷ []) claims h =
        let (header, signature, eh, es, alg, sign, checks) =
          with_decoded_lem (head <> "." <> middle) (t.json_of head) (t.json_of middle)
            (t.decode last) claims h in
        (
          (head, middle, last, header, signature),
          (refl, eh, checks.0, es, alg, sign),
          (refl, checks.1, checks.2, checks.3, checks.4),
        )

    -- A token is accepted, with its claims, exactly when it is genuine.
    pub verify_ipn_token-IsGenuine :
        (token : String) (claims : J)
        → (verify_ipn_token t body pos_signature keys now token ≡ ok claims)
          ↔ IsGenuine body pos_signature keys now token claims
    unfolding verify_ipn_token with_parts with_decoded check_header
    verify_ipn_token-IsGenuine token claims = (
      λ h.
          let (here, opened) =
            first_ok (truthy pos_signature)
              (with_parts t body pos_signature keys now (split_dot (rstrip (lstrip token)))) claims
              h in
          let (parts, held, checks) =
            with_parts_lem (split_dot (rstrip (lstrip token))) claims opened in
          (parts, held, here, checks.1, checks.2, checks.3, checks.4),
      λ (parts, (split, header, middle, last, alg, sign), here, iss, aud, sub, alive).
          rw (here, split, header, middle, last, alg, sign)
            (Claimed-check_claims (dict_value claims) claims (refl, iss, aud, sub, alive)),
    )

  accepted : (claims : J) → rejected_or_raised t (ok claims) ≡ ok true
  unfolding rejected_or_raised
  accepted claims = refl

  accepted_claims :
      (o : Outcome J) → rejected_or_raised t o ≡ ok true → (claims : J) × (o ≡ ok claims)
  unfolding rejected_or_raised
  accepted_claims (ok claims) h = (claims, refl)
  accepted_claims (raise (connector e)) h = absurd cc
  accepted_claims (raise (requests_error c message)) h = absurd cc
  accepted_claims (raise (exception name)) h = elim (Bool-cases (name == verification_error_name)) [
    | inl rejected ↦ let h' = rw rejected at h in absurd cc
    | inr other ↦ let h' = rw other at h in absurd cc
  ]

  -- A webhook is accepted exactly when its header Verification-Token is a genuine token for its body: of
  -- three parts, signed with RS512 by the key that is configured or by the published one, issued by
  -- Netopia for this point of sale, with the digest of this very body, and, where it states a number as
  -- the time of its expiry, not expired by more than five minutes.
  pub verify_webhook-IsGenuine :
      (public_key pos_signature : String) (now : ℕ) (headers : Dict String String) (body : B)
      → (verify_webhook t public_key pos_signature now headers body ≡ ok true)
        ↔ (claims : J) × IsGenuine body pos_signature
            (verification_keys t public_key)
            now
            (get_header t headers "Verification-Token")
            claims
  unfolding verify_webhook
  verify_webhook-IsGenuine public_key pos_signature now headers body =
      let keys = verification_keys t public_key in
      let token = get_header t headers "Verification-Token" in
      let genuine = verify_ipn_token-IsGenuine body pos_signature keys now token in
      (
        λ h.
            let (claims, e) =
              accepted_claims (verify_ipn_token t body pos_signature keys now token) h in
            (claims, (genuine claims).0 e),
        λ (claims, g). ap (rejected_or_raised t) ((genuine claims).1 g) ∙ accepted claims,
      )
