-- ===== src/Providers/LibraPay/Signing.antt =====
-- The signatures of IPNs.
use bapp_connectors.Base.{
  Bool, List, Option, String, [], ap, arith, false, if◌then◌else◌, none, refl, some, text_or_empty,
  true, truthy, ◌<>◌, ◌==◌, ◌||◌, ◌∙◌, ◌∷◌, ◌≡◌, string_key,
}
use bapp_connectors.Base.Dict.{Dict, get, get-put, put, same_refl}
use bapp_connectors.Providers.LibraPay.{
  Codec, Ipn, compute_hmac, enc, field, hash_text, ipn_fields, ipn_text, verify_ipn_hmac,
}

-- a field's value as the signer of a form has it: none where it is missing or empty
abbrev pub ipn_value : String → Option String
ipn_value String.[] = none
ipn_value s = some s

abbrev pub ipn_values : List String → Ipn → Dict String (Option String)
ipn_values [] d = []
ipn_values (name ∷ names) d = (name, ipn_value (field name d)) ∷ ipn_values names d

abbrev has_name : String → List String → Bool
has_name name [] = false
has_name name (other ∷ names) = name == other || has_name name names

module _ {ℓ} {K D : Type ℓ} (c : Codec K D) where
  enc-ipn_value : (s : String) → (if truthy s then enc c (some s) else "-") ≡ enc c (ipn_value s)
  unfolding enc
  enc-ipn_value String.[] = refl
  enc-ipn_value (String.◌∷◌ x s) = refl

  ipn_text-ipn_values :
      (names : List String) (d : Ipn) → ipn_text c names d ≡ hash_text c (ipn_values names d)
  unfolding ipn_text hash_text
  ipn_text-ipn_values [] d = refl
  ipn_text-ipn_values (name ∷ names) d =
      ap (λ s. s <> ipn_text c names d) (enc-ipn_value (field name d))
      ∙ ap (λ s. enc c (ipn_value (field name d)) <> s) (ipn_text-ipn_values names d)

  -- a field that is not among the names does not matter
  ipn_text-put :
      (name value : String) (names : List String) (d : Ipn)
      → has_name name names ≡ false
      → ipn_text c names (put name value d) ≡ ipn_text c names d
  unfolding ipn_text
  ipn_text-put name value [] d h = refl
  ipn_text-put name value (other ∷ names) d h =
      let differ : (name == other) ≡ false = ground arith in
      let rest : has_name name names ≡ false = ground arith in
      let same : get other (put name value d) ≡ get other d =
        get-put name other value d ∙ ap (λ t. if t then some value else get other d) differ in
      ap
        (λ o.
          (let v = text_or_empty o in if truthy v then enc c (some v) else "-")
          <> ipn_text c names (put name value d))
        same
      ∙ ap (λ s. (if truthy (field other d) then enc c (some (field other d)) else "-") <> s)
          (ipn_text-put name value names d rest)

  module _
      -- `str.upper` of a text in capitals
      (upper_twice : (s : String) → c.upper (c.upper s) ≡ c.upper s) where
    -- An IPN is accepted exactly when its P_SIGN, in capitals, is the signature that `compute_hmac` puts
    -- on its fourteen fields in order, with the empty ones as none. Provided that `str.upper` changes
    -- nothing of a text that it has made, an IPN so signed is accepted, whatever it held as P_SIGN.
    pub verify_ipn_hmac-compute_hmac :
        (d : Ipn) (key : K)
        → let signature = compute_hmac c (ipn_values ipn_fields d) key in
          (verify_ipn_hmac c d key ≡ (signature == c.upper (field "P_SIGN" d)))
          × (verify_ipn_hmac c (put "P_SIGN" signature d) key ≡ true)
    unfolding verify_ipn_hmac compute_hmac
    verify_ipn_hmac-compute_hmac d key =
        let text = hash_text c (ipn_values ipn_fields d) in
        let signature = c.upper (c.hexdigest key text) in
        let found : field "P_SIGN" (put "P_SIGN" signature d) ≡ signature =
          ap text_or_empty (get-put "P_SIGN" "P_SIGN" signature d) in
        (
          ap (λ s. c.upper (c.hexdigest key s) == c.upper (field "P_SIGN" d))
              (ipn_text-ipn_values ipn_fields d),
          ap
                (λ s.
                  c.upper (c.hexdigest key s)
                  == c.upper (field "P_SIGN" (put "P_SIGN" signature d)))
                (ipn_text-put "P_SIGN" signature ipn_fields d refl
                  ∙ ipn_text-ipn_values ipn_fields d)
              ∙ ap (λ s. signature == c.upper s) found
              ∙ ap (λ s. signature == s) (upper_twice (c.hexdigest key text))
              ∙ same_refl signature,
        )
