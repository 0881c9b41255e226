-- ===== src/Http/Middleware.antt =====
-- core/http/middleware.py: callbacks round a request. A callback acts on the state and may raise;
-- what it raises is logged and dropped, and what it had written stays.
use bapp_connectors.Base.{List, [], ◌++◌, ◌∷◌}
use bapp_connectors.Effect.{Action}

abbrev pub Callback {ℓ κ} : Type ℓ → Type κ → Type (ℓ ⊔ κ)
Callback S C = C → Action S (Unit {0})

pub record MiddlewareChain {ℓ} (S C D E : Type ℓ) : Type ℓ where
  pub on_request : List (Callback S C)
  pub on_response : List (Callback S D)
  pub on_error : List (Callback S E)

module _ {ℓ} {S C D E : Type ℓ} where
  unfoldable pub new_chain : MiddlewareChain S C D E
  new_chain = record { on_request = []; on_response = []; on_error = [] }

  unfoldable pub add_on_request : Callback S C → MiddlewareChain S C D E → MiddlewareChain S C D E
  add_on_request callback m = record m { on_request = m.on_request ++ callback ∷ [] }

  unfoldable pub add_on_response : Callback S D → MiddlewareChain S C D E → MiddlewareChain S C D E
  add_on_response callback m = record m { on_response = m.on_response ++ callback ∷ [] }

  unfoldable pub add_on_error : Callback S E → MiddlewareChain S C D E → MiddlewareChain S C D E
  add_on_error callback m = record m { on_error = m.on_error ++ callback ∷ [] }

module _ {ℓ} {S C : Type ℓ} where
  unfoldable pub fire : List (Callback S C) → C → S → S
  fire [] ctx s = s
  fire (cb ∷ cbs) ctx s = fire cbs ctx (cb ctx s).1

module _ {ℓ} {S C D E : Type ℓ} (m : MiddlewareChain S C D E) where
  unfoldable pub fire_on_request : C → S → S
  unfolding fire
  fire_on_request = fire m.on_request

  unfoldable pub fire_on_response : D → S → S
  unfolding fire
  fire_on_response = fire m.on_response

  unfoldable pub fire_on_error : E → S → S
  unfolding fire
  fire_on_error = fire m.on_error
