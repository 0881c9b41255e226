-- ===== src/Providers/Netopia.antt =====
-- providers/payment/netopia/ipn.py and `verify_webhook` of its adapter.py. Base64, JSON, the digest of a
-- body and the check of an RS512 signature are fields of `Tokens`; the time is in milliseconds.
pub mod Genuine
pub mod Tests
use Prim.Native.Char.{code}
use bapp_connectors.Base.{
  Bool, List, Option, String, [], false, if◌then◌else◌, ltb, nat_eq, none, not, some, true, truthy,
  ℕ, ◌*◌, ◌+◌, ◌<>◌, ◌==◌, ◌∷◌, string_key,
}
use bapp_connectors.Errors.{exception}
use bapp_connectors.Effect.{Outcome, ok, raise}
use bapp_connectors.Webhooks.Signatures.{Loaded, dict_value, lstrip, not_json, other_value, rstrip}
use bapp_connectors.Base.Dict.{Dict}

-- What a claim of a token holds, of a list its first item.
pub data Claim : Type 0 where
  missing empty_list other_claim : Claim
  text : String → Claim
  number : ℕ → Claim
  list_with : Claim → Claim

-- Claims `J`, bodies `B`.
pub record Tokens {ℓ} (J B : Type ℓ) : Type ℓ where
  -- `json.loads(_b64url_decode(segment))`, and the decoding alone
  pub json_of : String → Loaded J
  pub decode : String → Option B
  pub claim : String → J → Claim
  -- whether the key, a text, loads and verifies a signature over a signed text: false where the key
  -- does not load or the signature is invalid, and any other error raised
  pub verifies : String → B → String → Outcome Bool
  -- `base64.b64encode(hashlib.sha512(body).digest()).decode()`
  pub body_hash : B → String
  pub lower : String → String
  -- NETOPIA_IPN_PUBLIC_KEY
  pub published_key : String

-- `NetopiaIpnVerificationError`; the name of its class is kept before the message
abbrev pub verification_error_name : String
verification_error_name = "NetopiaIpnVerificationError"

abbrev verification_failure {ℓ} : {A : Type ℓ} → Outcome A
verification_failure = raise (exception verification_error_name)

-- `s.split(".")`: the first piece and the others
pub split_dot : String → String × List String
split_dot String.[] = ("", [])
split_dot (String.◌∷◌ c s) =
    let (first, more) = split_dot s in
    if nat_eq (code c) b'.' then ("", first ∷ more) else (String.◌∷◌ c first, more)

-- `claims.get(name) == value`
abbrev pub is_text : String → Claim → Bool
is_text value (text s) = s == value
is_text value _ = false

-- `aud[0] if isinstance(aud, list) and aud else aud`
abbrev pub audience : Claim → Claim
audience (list_with first) = first
audience aud = aud

-- `_to_seconds`, in milliseconds: numbers above 10 ^ 11 are milliseconds already
abbrev pub to_milliseconds : ℕ → ℕ
to_milliseconds n = if ltb 100000000000 n then n else 1000 * n

abbrev pub is_expired : ℕ → Claim → Bool
is_expired now (number n) = ltb (to_milliseconds n + 300000) now
is_expired now _ = false

-- a check that raises
abbrev require {ℓ} : {A : Type ℓ} → Bool → Outcome A → Outcome A
require test rest = if test then rest else verification_failure

abbrev require_verified {ℓ} : {A : Type ℓ} → Outcome Bool → Outcome A → Outcome A
require_verified (ok test) rest = require test rest
require_verified (raise e) rest = raise e

abbrev verified_or : Outcome Bool → Outcome Bool → Outcome Bool
verified_or (ok true) rest = ok true
verified_or (ok false) rest = rest
verified_or (raise e) rest = raise e

module _ {ℓ} {J B : Type ℓ} (t : Tokens J B) where
  -- the loop over the keys, which a signature that fits ends, as does an error that is not caught
  pub any_verifies : List String → B → String → Outcome Bool
  any_verifies [] signature signed = ok false
  any_verifies (key ∷ keys) signature signed =
      verified_or (t.verifies key signature signed) (any_verifies keys signature signed)

  -- `public_keys or [NETOPIA_IPN_PUBLIC_KEY]`
  abbrev pub keys_or_default : List String → List String
  keys_or_default [] = t.published_key ∷ []
  keys_or_default keys = keys

  module _ (body : B) (pos_signature : String) (keys : List String) (now : ℕ) where
    -- claims that are JSON, but not a dict, have no `get`
    check_claims : Loaded J → Outcome J
    check_claims (dict_value claims) = require (is_text "NETOPIA Payments" (t.claim "iss" claims)) (
        require (is_text pos_signature (audience (t.claim "aud" claims))) (
          require (is_text (t.body_hash body) (t.claim "sub" claims))
            (require (not (is_expired now (t.claim "exp" claims))) (ok claims))))
    check_claims _ = raise (exception "AttributeError")

    -- from the check of the algorithm on; nor has such a header
    check_header : String → Loaded J → Loaded J → B → Outcome J
    unfolding any_verifies check_claims
    check_header signed (dict_value header) claims signature =
        require (is_text "RS512" (t.claim "alg" header)) (
          require_verified (any_verifies (keys_or_default keys) signature signed)
            (check_claims claims))
    check_header signed _ claims signature = raise (exception "AttributeError")

    with_decoded : String → Loaded J → Loaded J → Option B → Outcome J
    unfolding check_header
    with_decoded signed not_json claims signature = verification_failure
    with_decoded signed header not_json signature = verification_failure
    with_decoded signed header claims none = verification_failure
    with_decoded signed header claims (some signature) = check_header signed header claims signature

    with_parts : String × List String → Outcome J
    unfolding with_decoded
    with_parts (head, claims ∷ signature ∷ []) =
        with_decoded (head <> "." <> claims) (t.json_of head) (t.json_of claims)
          (t.decode signature)
    with_parts _ = verification_failure

    unfoldable pub verify_ipn_token : String → Outcome J
    unfolding with_parts split_dot lstrip rstrip
    verify_ipn_token token =
        require (truthy pos_signature) (with_parts (split_dot (rstrip (lstrip token))))

  pub get_header : Dict String String → String → String
  get_header [] name = ""
  get_header ((key, value) ∷ headers) name =
      let rest = get_header headers name in if t.lower key == t.lower name then value else rest

  -- `except NetopiaIpnVerificationError`
  rejected_or_raised : Outcome J → Outcome Bool
  rejected_or_raised (ok claims) = ok true
  rejected_or_raised (raise (exception name)) =
      if name == verification_error_name then ok false else raise (exception name)
  rejected_or_raised (raise e) = raise e

  pub verification_keys : String → List String
  unfolding lstrip rstrip
  verification_keys public_key =
      let extra = rstrip (lstrip public_key) in
      if truthy extra then extra ∷ t.published_key ∷ [] else t.published_key ∷ []

  -- `verify_webhook`, with the credential public_key of the adapter and its POS signature
  unfoldable pub verify_webhook : String → String → ℕ → Dict String String → B → Outcome Bool
  unfolding verify_ipn_token get_header rejected_or_raised verification_keys
  verify_webhook public_key pos_signature now headers body = rejected_or_raised (
      verify_ipn_token body pos_signature (verification_keys public_key) now
        (get_header headers "Verification-Token"))
