-- ===== src/Webhooks/Signatures/Tests.antt =====
-- The verifiers of core/webhooks/signatures.py on concrete signatures, with a toy digest that puts the
-- secret before the body.
use bapp_connectors.Base.{String, not, refl, true, truthy, ◌<>◌, ◌≡◌, string_key}
use bapp_connectors.Effect.{ok}
use bapp_connectors.Webhooks.Signatures.{Platform, dict_value, hmac_sha256_verifier, verify}
use bapp_connectors.Webhooks.Signatures.Genuine.{IsGenuine, verify-IsGenuine}

abbrev toy_digests : Platform String String
toy_digests = record {
  hmac_sha256 = λ secret body. secret <> body;
  hmac_sha1 = λ secret body. secret <> body;
  sha256 = λ body. body;
  stamp = λ t body. t <> "." <> body;
  loads = λ body. dict_value body;
  loads_text = λ text. dict_value text;
  decode = λ body. body;
  is_empty_body = λ body. not (truthy body);
}

stamped_accepted : verify toy_digests hmac_sha256_verifier "paid" "t=16,v1=k16.paid" "k" ≡ ok true
unfolding verify
stamped_accepted = refl

prefix_accepted : verify toy_digests hmac_sha256_verifier "paid" "sha256=kpaid " "k" ≡ ok true
unfolding verify
prefix_accepted = refl

verify-IsGenuine_example : IsGenuine toy_digests "paid" "t=16,v1=k16.paid" "k" hmac_sha256_verifier
verify-IsGenuine_example =
    verify-IsGenuine toy_digests "paid" "t=16,v1=k16.paid" "k" hmac_sha256_verifier stamped_accepted
