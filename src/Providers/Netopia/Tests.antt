-- ===== src/Providers/Netopia/Tests.antt =====
-- Netopia tokens with toy claims: a segment stands for itself, and a key signs with its own text.
use bapp_connectors.Base.{
  Option, String, [], false, if◌then◌else◌, none, refl, some, true, ◌==◌, ◌↔◌, ◌∷◌, ◌≡◌, string_key,
}
use bapp_connectors.Base.Dict.{Dict, get}
use bapp_connectors.Errors.{exception}
use bapp_connectors.Effect.{ok, raise}
use bapp_connectors.Webhooks.Signatures.{dict_value, other_value}
use bapp_connectors.Providers.Netopia.{
  Claim, Tokens, any_verifies, get_header, list_with, missing, number, text, verification_keys,
  verify_webhook,
}
use bapp_connectors.Providers.Netopia.Genuine.{IsGenuine, verify_webhook-IsGenuine}

abbrev claims_of : Dict String Claim
claims_of =
    ("alg", text "RS512")
    ∷ ("iss", text "NETOPIA Payments")
    ∷ ("aud", list_with (text "POS"))
    ∷ ("sub", text "body")
    ∷ ("exp", number 1700000000)
    ∷ []

abbrev claim_or_missing : Option Claim → Claim
claim_or_missing none = missing
claim_or_missing (some c) = c

abbrev toy : Tokens String String
toy = record {
  json_of = λ s. if s == "list" then other_value else dict_value s;
  decode = λ s. some s;
  claim = λ name j. claim_or_missing (get name claims_of);
  verifies = λ key signature signed. ok (key == signature);
  body_hash = λ body. body;
  lower = λ s. s;
  published_key = "key";
}

abbrev headers : Dict String String
headers = ("Verification-Token", "head.claims.key") ∷ []

accepted_test : verify_webhook toy "" "POS" 1700000000000 headers "body" ≡ ok true
unfolding verify_webhook any_verifies
accepted_test = refl

tampered_test : verify_webhook toy "" "POS" 1700000000000 headers "other" ≡ ok false
unfolding verify_webhook any_verifies
tampered_test = refl

-- A header that is JSON, but no dict, is not rejected: it raises.
list_header_test :
    verify_webhook toy "" "POS" 1700000000000
      (("Verification-Token", "list.claims.key") ∷ [])
      "body"
    ≡ raise (exception "AttributeError")
unfolding verify_webhook any_verifies
list_header_test = refl

verify_webhook-IsGenuine_example :
    (verify_webhook toy "" "POS" 1700000000000 headers "body" ≡ ok true)
    ↔ (claims : String) × IsGenuine toy "body" "POS"
        (verification_keys toy "")
        1700000000000
        (get_header toy headers "Verification-Token")
        claims
verify_webhook-IsGenuine_example =
    verify_webhook-IsGenuine toy "" "POS" 1700000000000 headers "body"
