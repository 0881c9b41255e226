-- ===== src/Django/Webhooks/Forged.antt =====
-- A webhook whose signature does not verify, at services/webhook.py.
use bapp_connectors.Base.{
  Bool, Bool-cases, Option, String, [], false, if◌then◌else◌, inl, inr, refl, true, ℕ, ◌++◌, ◌∷◌,
  ◌≡◌, ◌≢◌, ◌⊎◌, string_key,
}
use bapp_connectors.Errors.{Exn}
use bapp_connectors.Effect.{ok, raise}
use bapp_connectors.Webhooks.Signatures.{Platform}
use bapp_connectors.Webhooks.Dispatcher.{Request, verify_signature}
use bapp_connectors.Webhooks.Dispatcher.Verification.{dispatch_refuses, verify_signature-Settled}
use bapp_connectors.Django.Webhooks.{
  EventRow, Parser, Table, create, exists, is_verification_error, receive, refuse, rejected,
  rejected_row, store_rejected,
}
use bapp_connectors.Django.Webhooks.Duplicates.{receive_raises}

-- The table after a refused webhook: no signal, and at most one row more, a rejected one.
abbrev pub OnlyRejected {ℓ} : {J : Type ℓ} → Table J → Table J → Type ℓ
OnlyRejected {J = J} t t' =
    (t'.sent ≡ t.sent)
    × ((t'.rows ≡ t.rows)
        ⊎ ((row : EventRow J) × (t'.rows ≡ t.rows ++ row ∷ [])
            × (row.status ≡ rejected)
            × (row.signature_valid ≡ false)))

OnlyRejected-if {ℓ} :
    {J : Type ℓ} (b : Bool) (t t' : Table J)
    → OnlyRejected t t'
    → OnlyRejected t (if b then t' else t)
OnlyRejected-if true t t' h = h
OnlyRejected-if false t t' h = (refl, inl refl)

create-OnlyRejected {ℓ} :
    {J : Type ℓ} (row : EventRow J) (t : Table J)
    → row.status ≡ rejected
    → row.signature_valid ≡ false
    → OnlyRejected t (create row t).1
unfolding create
create-OnlyRejected row t h k = elim (Bool-cases (exists row.idempotency_key t.rows)) [
  | inl old ↦ rw old (refl, inl refl)
  | inr new ↦ rw new (refl, inr (row, refl, h, k))
]

module _ {ℓ} {B J : Type ℓ} (p : Platform B J) (r : Request B) where
  refuse-OnlyRejected :
      (has_model : Bool) (connection : Option ℕ) (uuid : String) (e : Exn) (t : Table J)
      → OnlyRejected t (refuse p has_model r connection uuid e t)
  unfolding refuse store_rejected
  refuse-OnlyRejected has_model connection uuid e t =
      OnlyRejected-if (is_verification_error e) t _ (
        OnlyRejected-if has_model t _
          (create-OnlyRejected (rejected_row p has_model r connection uuid e) t refl refl))

  -- A webhook whose signature does not verify is refused with an error: nothing is signalled, and the
  -- table gains at most one row, which is marked as rejected with an invalid signature.
  pub forged_not_accepted :
      (has_model : Bool) (connection : Option ℕ) (parser : Option (Parser B)) (uuid : String)
      (t : Table J)
      → verify_signature p r ≢ ok true
      → ((e : Exn) × ((receive p has_model r connection parser uuid t).0 ≡ raise e))
        × OnlyRejected t (receive p has_model r connection parser uuid t).1
  forged_not_accepted has_model connection parser uuid t forged =
      elim (verify_signature-Settled p r) [
        | inl fine ↦ absurd (forged fine)
        | inr (e, h) ↦
            rw (receive_raises p r connection parser has_model uuid t e (dispatch_refuses p r e h))
              ((e, refl), refuse-OnlyRejected has_model connection uuid e t)
      ]
