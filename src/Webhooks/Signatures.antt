-- ===== src/Webhooks/Signatures.antt =====
-- core/webhooks/signatures.py: the verifiers, a class by a constructor. The digests are functions of
-- `hmac` and `hashlib`, over the bodies `B` of requests: fields of `Platform`.
pub mod Genuine
pub mod Tests
use Prim.Native.Char.{code}
use bapp_connectors.Base.{
  Bool, List, Option, String, [], false, if◌then◌else◌, leb, ltb, nat_eq, none, not, some, suc,
  true, truthy, zero, ℕ, ◌&&◌, ◌==◌, ◌||◌, ◌∷◌, string_key,
}
use bapp_connectors.Base.Dict.{Dict, get, put}
use bapp_connectors.Errors.{exception}
use bapp_connectors.Effect.{Outcome, ok, raise}
use bapp_connectors.Http.Url.{starts_with}

-- What `json.loads` makes of a text: a dict, another value, or an error.
pub data Loaded {ℓ} (J : Type ℓ) : Type ℓ where
  dict_value : J → Loaded J
  other_value : Loaded J
  not_json : Loaded J

pub record Platform {ℓ} (B J : Type ℓ) : Type ℓ where
  -- the hex digests, by secret and message
  pub hmac_sha256 : String → B → String
  pub hmac_sha1 : String → B → String
  pub sha256 : B → String
  -- a text and a dot before a body
  pub stamp : String → B → B
  -- `json.loads` of a body and of a text, `decode("utf-8", errors="replace")`, `not body`
  pub loads : B → Loaded J
  pub loads_text : String → Loaded J
  pub decode : B → String
  pub is_empty_body : B → Bool

pub data SignatureVerifier : Type 0 where
  hmac_sha256_verifier hmac_sha1_verifier adapter_only_verifier noop_verifier : SignatureVerifier

abbrev pub adapter_verified_methods : List String
adapter_verified_methods =
    "netopia-jwt" ∷ "apple-jws" ∷ "google-pubsub-oidc" ∷ "plain-token" ∷ "temu-hmac-aes" ∷ []

is_member : String → List String → Bool
is_member x [] = false
is_member x (y ∷ ys) = x == y || is_member x ys

unfoldable pub get_verifier : String → SignatureVerifier
unfolding is_member
get_verifier method =
    if is_member method adapter_verified_methods
    then adapter_only_verifier
    else if method == "hmac-sha256"
    then hmac_sha256_verifier
    else if method == "hmac-sha1"
    then hmac_sha1_verifier
    else noop_verifier

-- the characters up to code 255 that `str.strip` removes
is_space : ℕ → Bool
is_space n = (leb 9 n && leb n 13) || (leb 28 n && leb n 32) || nat_eq n 133 || nat_eq n 160

unfoldable pub lstrip : String → String
unfolding is_space
lstrip String.[] = ""
lstrip (String.◌∷◌ c s) = let rest = lstrip s in if is_space (code c) then rest else String.◌∷◌ c s

unfoldable pub rstrip : String → String
unfolding is_space
rstrip String.[] = ""
rstrip (String.◌∷◌ c s) =
    let rest = rstrip s in if is_space (code c) && not (truthy rest) then "" else String.◌∷◌ c rest

skip : ℕ → String → String
skip zero s = s
skip (suc n) String.[] = ""
skip (suc n) (String.◌∷◌ c s) = skip n s

size : String → ℕ
size String.[] = 0
size (String.◌∷◌ c s) = suc (size s)

pub removeprefix : String → String → String
unfolding starts_with skip size
removeprefix s start = if starts_with s start then skip (size start) s else s

-- `s.split(",")`: the first piece and the others
unfoldable pub split_comma : String → String × List String
split_comma String.[] = ("", [])
split_comma (String.◌∷◌ c s) =
    let (first, more) = split_comma s in
    if nat_eq (code c) b',' then ("", first ∷ more) else (String.◌∷◌ c first, more)

-- `p.split("=", 1)`, where there is one
split_equals : String → Option (String × String)
split_equals String.[] = none
split_equals (String.◌∷◌ c s) =
    let rest = split_equals s in
    if nat_eq (code c) b'='
    then some ("", s)
    else elim rest [ none ↦ none | some (key, value) ↦ some (String.◌∷◌ c key, value) ]

pub signature_parts : Dict String String → List String → Dict String String
unfolding split_equals
signature_parts d [] = d
signature_parts d (p ∷ ps) = elim (split_equals p) [
  | none ↦ signature_parts d ps
  | some (key, value) ↦ signature_parts (put key value d) ps
]

-- `parts.get(key, "")`
abbrev pub or_empty : Option String → String
or_empty none = ""
or_empty (some s) = s

is_ascii : String → Bool
is_ascii String.[] = true
is_ascii (String.◌∷◌ c s) = ltb (code c) 128 && is_ascii s

-- `hmac.compare_digest` of two texts, which refuses texts that are not ASCII
pub compare_digest : String → String → Outcome Bool
unfolding is_ascii
compare_digest expected actual =
    if is_ascii expected && is_ascii actual
    then ok (expected == actual)
    else raise (exception "comparing strings with non-ASCII characters is not supported")

module _ {ℓ} {B J : Type ℓ} (p : Platform B J) where
  verify_stripe : B → String → String → Outcome Bool
  unfolding signature_parts split_comma compare_digest
  verify_stripe body signature secret =
      let (first, more) = split_comma signature in
      let parts = signature_parts [] (first ∷ more) in
      let timestamp = or_empty (get "t" parts) in
      let sig_hex = or_empty (get "v1" parts) in
      if truthy timestamp && truthy sig_hex
      then compare_digest (p.hmac_sha256 secret (p.stamp timestamp body)) sig_hex
      else ok false

  unfoldable pub verify : SignatureVerifier → B → String → String → Outcome Bool
  unfolding verify_stripe starts_with removeprefix lstrip rstrip compare_digest is_space
  verify hmac_sha256_verifier body signature secret =
      if starts_with signature "t="
      then verify_stripe body signature secret
      else compare_digest (p.hmac_sha256 secret body)
          (rstrip (lstrip (removeprefix signature "sha256=")))
  verify hmac_sha1_verifier body signature secret =
      compare_digest (p.hmac_sha1 secret body) (rstrip (lstrip (removeprefix signature "sha1=")))
  verify adapter_only_verifier body signature secret = ok false
  verify noop_verifier body signature secret = ok true
