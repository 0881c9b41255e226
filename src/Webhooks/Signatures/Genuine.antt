-- ===== src/Webhooks/Signatures/Genuine.antt =====
-- What a signature that core/webhooks/signatures.py accepts shows.
use bapp_connectors.Base.{
  Bool, Option, String, [], arith, false, if◌then◌else◌, inl, inr, none, refl, some, string_key,
  true, truthy, ◌&&◌, ◌∷◌, ◌≡◌, ◌⊎◌,
}
use bapp_connectors.Effect.{ok}
use bapp_connectors.Http.Url.{starts_with}
use bapp_connectors.Webhooks.Signatures.{
  Platform, SignatureVerifier, adapter_only_verifier, compare_digest, hmac_sha1_verifier,
  hmac_sha256_verifier, lstrip, noop_verifier, or_empty, removeprefix, rstrip, signature_parts,
  split_comma, verify, verify_stripe,
}
use bapp_connectors.Base.Dict.{get}

compare_digest_equal : (x y : String) → compare_digest x y ≡ ok true → x ≡ y
unfolding compare_digest
compare_digest_equal x y h = (string_key.same_iff x y).0 (ground arith)

-- the text that stands after a prefix, without the space round it
abbrev pub bare : String → String → String
bare start signature = rstrip (lstrip (removeprefix signature start))

-- the value of `name=value` among the pieces of a signature between commas
abbrev pub piece : String → String → Option String
piece name signature =
    let (first, more) = split_comma signature in get name (signature_parts [] (first ∷ more))

module _ {ℓ} {B J : Type ℓ} (p : Platform B J) (body : B) (signature secret : String) where
  -- the signature is a digest of the body with the secret, or its `v1` is one of the body after its `t`
  abbrev pub DigestSha256 : Type 0
  DigestSha256 =
      (p.hmac_sha256 secret body ≡ bare "sha256=" signature)
      ⊎ ((timestamp : String) × (sig_hex : String) × (piece "t" signature ≡ some timestamp)
          × (piece "v1" signature ≡ some sig_hex)
          × (truthy timestamp ≡ true)
          × (truthy sig_hex ≡ true)
          × (p.hmac_sha256 secret (p.stamp timestamp body) ≡ sig_hex))

  abbrev pub IsGenuine : SignatureVerifier → Type 0
  IsGenuine hmac_sha256_verifier = DigestSha256
  IsGenuine hmac_sha1_verifier = p.hmac_sha1 secret body ≡ bare "sha1=" signature
  IsGenuine adapter_only_verifier = ⊥
  IsGenuine noop_verifier = Unit

  stamped_genuine :
      (t v : Option String) (b c : Bool)
      → piece "t" signature ≡ t
      → piece "v1" signature ≡ v
      → truthy (or_empty t) ≡ b
      → truthy (or_empty v) ≡ c
      → (if b && c
          then compare_digest (p.hmac_sha256 secret (p.stamp (or_empty t) body)) (or_empty v)
          else ok false)
        ≡ ok true
      → DigestSha256
  stamped_genuine (some timestamp) (some sig_hex) true true e f t v h =
      inr (timestamp, sig_hex, e, f, t, v, compare_digest_equal _ _ h)
  stamped_genuine none v true c e f x y h = cc
  stamped_genuine (some timestamp) none true true e f x y h = cc
  stamped_genuine t v true false e f x y h = cc
  stamped_genuine t v false c e f x y h = cc

  stripe_genuine : verify_stripe p body signature secret ≡ ok true → DigestSha256
  unfolding verify_stripe
  stripe_genuine h = stamped_genuine _ _ _ _ refl refl refl refl h

  sha256_genuine :
      (stamped : Bool)
      → (if stamped
          then verify_stripe p body signature secret
          else compare_digest (p.hmac_sha256 secret body) (bare "sha256=" signature))
        ≡ ok true
      → DigestSha256
  sha256_genuine true h = stripe_genuine h
  sha256_genuine false h = inl (compare_digest_equal _ _ h)

  -- A signature that a verifier accepts is a digest made with the secret, of the body itself or, under
  -- SHA-256, its piece v1 is one of the body after its piece t; the verifier of the adapters' own schemes accepts none,
  -- and the one that does not verify shows nothing.
  pub verify-IsGenuine :
      (v : SignatureVerifier) → verify p v body signature secret ≡ ok true → IsGenuine v
  unfolding verify
  verify-IsGenuine hmac_sha256_verifier h = sha256_genuine (starts_with signature "t=") h
  verify-IsGenuine hmac_sha1_verifier h = compare_digest_equal _ _ h
  verify-IsGenuine adapter_only_verifier h = cc
  verify-IsGenuine noop_verifier h = tt
