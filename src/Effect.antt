-- ===== src/Effect.antt =====
-- Code that changes state and may raise: the state comes back after a raise too, since what was
-- written stays written.
use mathlib.Core.Path.{subst}
use bapp_connectors.Base.{Bool, false, if◌then◌else◌, refl, true, ◌≡◌}
use bapp_connectors.Errors.{Exn}

pub data Outcome {ℓ} (A : Type ℓ) : Type ℓ where
  ok : A → Outcome A
  raise : Exn → Outcome A

-- code that raises and changes no state
abbrev pub map_ok {ℓ κ} : {A : Type ℓ} {B : Type κ} → (A → B) → Outcome A → Outcome B
map_ok f (ok a) = ok (f a)
map_ok f (raise e) = raise e

abbrev pub bind_ok {ℓ κ} : {A : Type ℓ} {B : Type κ} → (A → Outcome B) → Outcome A → Outcome B
bind_ok f (ok a) = f a
bind_ok f (raise e) = raise e

abbrev pub Action {ℓ κ} : Type ℓ → Type κ → Type (ℓ ⊔ κ)
Action W A = W → Outcome A × W

-- What follows a call, by the outcome of the call.
abbrev pub resume {ℓ κ υ} :
    {W : Type ℓ} {A : Type κ} {B : Type υ} → (A → Action W B) → Outcome A × W → Outcome B × W
resume f (ok a, w) = f a w
resume f (raise e, w) = (raise e, w)

abbrev pub recover {ℓ κ} :
    {W : Type ℓ} {A : Type κ} → (Exn → Action W A) → Outcome A × W → Outcome A × W
recover f (ok a, w) = (ok a, w)
recover f (raise e, w) = f e w

module _ {ℓ κ} {W : Type ℓ} {A : Type κ} where
  abbrev pub pure : A → Action W A
  pure a w = (ok a, w)

  abbrev pub throw : Exn → Action W A
  throw e w = (raise e, w)

  abbrev pub lift : Outcome A → Action W A
  lift r w = (r, w)

  -- `try: m except Exception as e: handler(e)`
  abbrev pub catch : Action W A → (Exn → Action W A) → Action W A
  catch m handler w = recover handler (m w)

infixl 5 ◌>>=◌ ◌>>◌
abbrev pub ◌>>=◌ {ℓ κ υ} :
    {W : Type ℓ} {A : Type κ} {B : Type υ} → Action W A → (A → Action W B) → Action W B
◌>>=◌ m f w = resume f (m w)

abbrev pub ◌>>◌ {ℓ κ υ} :
    {W : Type ℓ} {A : Type κ} {B : Type υ} → Action W A → Action W B → Action W B
m >> k = m >>= λ _. k

-- The outcome is a value, and the value satisfies `P`.
abbrev pub Returns {ℓ} : {A : Type ℓ} → (A → Type 0) → Outcome A → Type 0
Returns P (ok a) = P a
Returns P (raise e) = ⊥

-- The value, if there is one, satisfies `P`.
abbrev pub Ensures {ℓ} : {A : Type ℓ} → (A → Type 0) → Outcome A → Type 0
Ensures P (ok a) = P a
Ensures P (raise e) = Unit

module _ {ℓ κ υ} {W : Type ℓ} {A : Type κ} {B : Type υ} (P : B → Type 0) (f : A → Action W B) where
  Ensures-resume :
      (r : Outcome A × W) → ((a : A) (w : W) → Ensures P (f a w).0) → Ensures P (resume f r).0
  Ensures-resume (ok a, w) h = h a w
  Ensures-resume (raise e, w) h = tt

  Returns-resume :
      (Q : A → Type 0) (r : Outcome A × W)
      → Returns Q r.0
      → ((a : A) (w : W) → Q a → Returns P (f a w).0)
      → Returns P (resume f r).0
  Returns-resume Q (ok a, w) q h = h a w q
  Returns-resume Q (raise e, w) q h = absurd q

  Ensures-resume_via :
      (Q : A → Type 0) (r : Outcome A × W)
      → Ensures Q r.0
      → ((a : A) (w : W) → Q a → Ensures P (f a w).0)
      → Ensures P (resume f r).0
  Ensures-resume_via Q (ok a, w) q h = h a w q
  Ensures-resume_via Q (raise e, w) q h = tt

  -- the same, where the call's own value satisfies `Q`
  pub Ensures-bind_via :
      (Q : A → Type 0) (m : Action W A) (w : W)
      → Ensures Q (m w).0
      → ((a : A) (w : W) → Q a → Ensures P (f a w).0)
      → Ensures P ((m >>= f) w).0
  Ensures-bind_via Q m w q h = Ensures-resume_via Q (m w) q h

  pub Ensures-bind :
      (m : Action W A) (w : W) → ((a : A) (w : W) → Ensures P (f a w).0) → Ensures P ((m >>= f) w).0
  Ensures-bind m w h = Ensures-resume (m w) h

  pub Returns-bind :
      (Q : A → Type 0) (m : Action W A) (w : W)
      → Returns Q (m w).0
      → ((a : A) (w : W) → Q a → Returns P (f a w).0)
      → Returns P ((m >>= f) w).0
  Returns-bind Q m w q h = Returns-resume Q (m w) q h

module _ {ℓ κ} {W : Type ℓ} {A : Type κ} (P : A → Type 0) (f : Exn → Action W A) where
  Returns-recover :
      (r : Outcome A × W)
      → Ensures P r.0
      → ((e : Exn) (w : W) → Returns P (f e w).0)
      → Returns P (recover f r).0
  Returns-recover (ok a, w) q h = q
  Returns-recover (raise e, w) q h = h e w

  pub Returns-catch :
      (m : Action W A) (w : W)
      → Ensures P (m w).0
      → ((e : Exn) (w : W) → Returns P (f e w).0)
      → Returns P (catch m f w).0
  Returns-catch m w q h = Returns-recover (m w) q h

pub Returns-weaken {ℓ} :
    {A : Type ℓ} (P Q : A → Type 0) (o : Outcome A)
    → ((a : A) → P a → Q a)
    → Returns P o
    → Returns Q o
Returns-weaken P Q (ok a) f h = f a h
Returns-weaken P Q (raise e) f h = absurd h

pub Ensures-weaken {ℓ} :
    {A : Type ℓ} (P Q : A → Type 0) (o : Outcome A)
    → ((a : A) → P a → Q a)
    → Ensures P o
    → Ensures Q o
Ensures-weaken P Q (ok a) f h = f a h
Ensures-weaken P Q (raise e) f h = tt

pub Ensures-ok {ℓ} :
    {A : Type ℓ} (P : A → Type 0) (o : Outcome A) (a : A) → o ≡ ok a → Ensures P o → P a
Ensures-ok P (ok b) a q h = subst P (cc) h
Ensures-ok P (raise e) a q h = cc

pub Ensures-if {ℓ κ} :
    {W : Type ℓ} {A : Type κ} (P : A → Type 0) (b : Bool) (m n : Action W A) (w : W)
    → Ensures P (m w).0
    → Ensures P (n w).0
    → Ensures P ((if b then m else n) w).0
Ensures-if P true m n w h k = h
Ensures-if P false m n w h k = k

-- Where the outcome is a value, the state satisfies `P`.
abbrev pub AfterOk {ℓ κ υ} : {W : Type ℓ} {A : Type κ} → (W → Type υ) → Outcome A × W → Type υ
AfterOk P (ok a, w) = P w
AfterOk P (raise e, w) = Unit

module _ {ℓ κ υ ω} {W : Type ℓ} {A : Type κ} {B : Type υ} (P : W → Type ω)
    (f : A → Action W B) where
  AfterOk-resume :
      (r : Outcome A × W) → ((a : A) (w : W) → AfterOk P (f a w)) → AfterOk P (resume f r)
  AfterOk-resume (ok a, w) h = h a w
  AfterOk-resume (raise e, w) h = tt

  pub AfterOk-bind :
      (m : Action W A) (w : W) → ((a : A) (w : W) → AfterOk P (f a w)) → AfterOk P ((m >>= f) w)
  AfterOk-bind m w h = AfterOk-resume (m w) h

module _ {ℓ κ ω} {W : Type ℓ} {A : Type κ} (P : W → Type ω) (f : Exn → Action W A) where
  AfterOk-recover :
      (r : Outcome A × W) → AfterOk P r → ((e : Exn) (w : W) → P (f e w).1) → P (recover f r).1
  AfterOk-recover (ok a, w) h k = h
  AfterOk-recover (raise e, w) h k = k e w

  pub AfterOk-catch :
      (m : Action W A) (w : W)
      → AfterOk P (m w)
      → ((e : Exn) (w : W) → P (f e w).1)
      → P (catch m f w).1
  AfterOk-catch m w h k = AfterOk-recover (m w) h k

pub Returns-value {ℓ} :
    {A : Type ℓ} (P : A → Type 0) (o : Outcome A) → Returns P o → (a : A) × (o ≡ ok a)
Returns-value P (ok a) h = (a, refl)
Returns-value P (raise e) h = absurd h
