-- ===== src/Webhooks/Dispatcher/Verification.antt =====
-- How a verification of core/webhooks/dispatcher.py ends.
use bapp_connectors.Base.{
  Bool, Option, String, false, if◌then◌else◌, inl, inr, none, refl, some, true, truthy, ◌<>◌, ◌≡◌,
  ◌⊎◌, string_key,
}
use bapp_connectors.Errors.{Exn}
use bapp_connectors.Effect.{Outcome, ok, raise}
use bapp_connectors.Webhooks.Signatures.{Platform, get_verifier, verify}
use bapp_connectors.Webhooks.Dispatcher.{
  Request, check_method, dispatch, header_or_empty, require_valid, verification_error,
  verify_signature,
}
use bapp_connectors.Base.Dict.{get}

-- A verification either succeeds or raises.
abbrev pub Settled : Outcome Bool → Type 0
Settled o = (o ≡ ok true) ⊎ ((e : Exn) × (o ≡ raise e))

Settled-if : (b : Bool) (x y : Outcome Bool) → Settled x → Settled y → Settled (if b then x else y)
Settled-if true x y h k = h
Settled-if false x y h k = k

require_valid-Settled : (o : Outcome Bool) → Settled (require_valid o)
require_valid-Settled (ok true) = inl refl
require_valid-Settled (ok false) = inr (_, refl)
require_valid-Settled (raise e) = inr (e, refl)

module _ {ℓ} {B J : Type ℓ} (p : Platform B J) (r : Request B) where
  check_method-Settled : (method : String) → Settled (check_method p r method)
  unfolding check_method
  check_method-Settled method =
      let signature = header_or_empty (get r.signature_header r.headers) in
      let answer = verify p (get_verifier method) r.body signature r.secret in
      let missing : Outcome Bool =
        raise (verification_error ("Missing signature header: " <> r.signature_header)) in
      let checked = if truthy signature then require_valid answer else missing in
      Settled-if (truthy method) checked (ok true)
        (Settled-if (truthy signature) (require_valid answer) missing (require_valid-Settled answer)
          (inr (_, refl)))
        (inl refl)

  by_method :
      (m : Option String)
      → Settled (elim m [ none ↦ ok true | some method ↦ check_method p r method ])
  by_method none = inl refl
  by_method (some method) = check_method-Settled method

  pub verify_signature-Settled : Settled (verify_signature p r)
  unfolding verify_signature
  verify_signature-Settled = by_method r.signature_method

  pub dispatch_refuses : (e : Exn) → verify_signature p r ≡ raise e → dispatch p r ≡ raise e
  unfolding dispatch
  dispatch_refuses e h = rw h refl
