-- ===== src/Django/Pull/Pages/Accounting.antt =====
-- What services/pull.py counts on a page, and what it leaves alone.
use bapp_connectors.Base.{
  Bool, List, Option, [], ap, arith, false, if◌then◌else◌, length, none, not, refl, some, true,
  truthy, ℕ, ◌++◌, ◌+◌, ◌||◌, ◌∙◌, ◌∷◌, ◌≡◌, string_key,
}
use bapp_connectors.Errors.{Exn}
use bapp_connectors.Sync.Dto.{Product}
use bapp_connectors.Django.Links.{SyncLink}
use bapp_connectors.Django.Pull.{
  PageDesk, PullDecision, PullReport, apply_decision, decided, note_conflict, note_failed,
  note_pulled, remote_modified,
}
use bapp_connectors.Base.Dict.{get}
use bapp_connectors.Effect.{Outcome, ok, raise, resume}
use bapp_connectors.Django.Pull.Pages.{PullCall, count_echo, is_echo, pull_items, pull_one}

abbrev pub accounted : PullReport → ℕ
accounted r = r.created + r.updated + r.echoes + r.conflicts + r.skipped + r.failed

-- A step that counts some items and leaves the pages, the sync state and the connection alone.
abbrev pub Counts {ℓ} : {W : Type ℓ} → ℕ → PageDesk W → PageDesk W → Type 0
Counts n s s' =
    (accounted s'.1.report ≡ accounted s.1.report + n)
    × (s'.1.report.pages ≡ s.1.report.pages)
    × (s'.1.state ≡ s.1.state)
    × (s'.1.store ≡ s.1.store)

Counts-if {ℓ} :
    {W : Type ℓ} {X : Type 0} (n : ℕ) (s : PageDesk W) (b : Bool) (x y : Outcome X × PageDesk W)
    → Counts n s x.1
    → Counts n s y.1
    → Counts n s (if b then x else y).1
Counts-if n s true x y h k = h
Counts-if n s false x y h k = k

module _ {ℓ} {W : Type ℓ} where
  note_conflict-Counts :
      (product : Product) (link : Option SyncLink) (decision : PullDecision) (s : PageDesk W)
      → Counts 1 s (note_conflict product link decision s)
  unfolding note_conflict
  note_conflict-Counts product none decision (objects, d) = (omega arith, refl, refl, refl)
  note_conflict-Counts product (some link) decision (objects, d) = (omega arith, refl, refl, refl)

  note_failed-Counts :
      (duplicate : Exn) (product : Product) (link : Option SyncLink) (decision : PullDecision)
      (s : PageDesk W)
      → Counts 1 s (note_failed duplicate product link decision s).1
  unfolding note_failed
  note_failed-Counts duplicate product none decision (objects, d) =
      Counts-if 1 (objects, d) _ _ _ (omega arith, refl, refl, refl) (omega arith, refl, refl, refl)
  note_failed-Counts duplicate product (some link) decision (objects, d) =
      (omega arith, refl, refl, refl)

  note_pulled-Counts :
      (now : ℕ) (product : Product) (link : Option SyncLink) (decision : PullDecision)
      (s : PageDesk W)
      → Counts 1 s (note_pulled now product link decision s)
  unfolding note_pulled
  note_pulled-Counts now product none decision (objects, d) = (omega arith, refl, refl, refl)
  note_pulled-Counts now product (some link) decision (objects, d) = (omega arith, refl, refl, refl)

  apply_decision-Counts :
      (duplicate : Exn) (now : ℕ) (product : Product) (link : Option SyncLink)
      (decision : PullDecision) (s : PageDesk W)
      → Counts 1 s (apply_decision duplicate now product link decision s).1
  unfolding apply_decision
  apply_decision-Counts duplicate now product link decision s =
      Counts-if 1 s decision.conflict _ _ (note_conflict-Counts product link decision s) (
        Counts-if 1 s (truthy decision.error) _ _
          (note_failed-Counts duplicate product link decision s)
          (Counts-if 1 s (decision.skipped || not decision.applied) _ _
            (omega arith, refl, refl, refl) (note_pulled-Counts now product link decision s)))

module _ {ℓ} {W : Type ℓ} (c : PullCall W) where
  -- The run over a page breaks off at a product: those before it went through, pulling it raised, and it
  -- is counted with them.
  abbrev pub BreaksOff : List Product → PageDesk W → Exn → PageDesk W → Type ℓ
  BreaksOff products s e s' =
      (before after : List Product) × (product : Product) × (s₁ : PageDesk W) × (products
        ≡ before ++ product ∷ after)
      × (pull_items c before s ≡ (ok tt, s₁))
      × (pull_one c product s₁ ≡ (raise e, s'))
      × Counts (length before + 1) s s'

  -- every item counts, or those up to the one that raised do (`Unit` only sets the level)
  abbrev pub Counted : List Product → PageDesk W → Outcome (Unit {0}) × PageDesk W → Type ℓ
  Counted products s (ok _, s') = Counts (length products) s s' × Unit {ℓ}
  Counted products s (raise e, s') = BreaksOff products s e s'

  pull_one-Counts : (product : Product) (s : PageDesk W) → Counts 1 s (pull_one c product s).1
  unfolding pull_one count_echo
  pull_one-Counts product (objects, d) =
      let link = get product.product_id objects in
      let (answer, w') = c.on_item product link d.outside in
      Counts-if 1 (objects, d) (is_echo (remote_modified product) link) _ _
        (omega arith, refl, refl, refl)
        (apply_decision-Counts c.duplicate (c.now w') product link (decided answer)
          (objects, record d { outside = w' }))

  add-Counts : (n m : ℕ) (x y z : PageDesk W) → Counts n x y → Counts m y z → Counts (m + n) x z
  add-Counts n m x y z h k = (omega (arith, h.0, k.0), k.1 ∙ h.1, k.2 ∙ h.2, k.3 ∙ h.3)

  -- A page of products is accounted for: each of them counts exactly once, as created, updated, echo,
  -- conflict, skipped or failed. Where the run is broken off amid the page, it is by the product whose
  -- pulling raised what the run raises, after those before it went through, and exactly that one
  -- and those before it count. The count of the pages, the sync state and the connection stay as they
  -- are.
  pub pull_items_counts :
      (products : List Product) (s : PageDesk W) → Counted products s (pull_items c products s)
  unfolding pull_items
  pull_items_counts [] s = ((omega arith, refl, refl, refl), tt)
  pull_items_counts (product ∷ products) s =
      after (pull_one c product s) refl (pull_items_counts products) (pull_one-Counts product s)
    where
      whole :
          (y : PageDesk W) (r : Outcome (Unit {0}) × PageDesk W)
          → pull_one c product s ≡ (ok tt, y)
          → Counts 1 s y
          → Counted products y r
          → Counted (product ∷ products) s r
      whole y (ok _, z) q h k =
          let j = add-Counts 1 (length products) s y z h k.0 in
          ((omega (arith, j.0), j.1, j.2, j.3), tt)
      whole y (raise e, z) q h (before, rest, culprit, s₁, split, done, failed, k) =
          let j = add-Counts 1 (length before + 1) s y z h k in
          (
            product ∷ before,
            rest,
            culprit,
            s₁,
            ap (λ l. product ∷ l) split,
            ap (resume (λ _. pull_items c before)) q ∙ done,
            failed,
            (omega (arith, j.0), j.1, j.2, j.3),
          )

      after :
          (r : Outcome (Unit {0}) × PageDesk W)
          → pull_one c product s ≡ r
          → ((s' : PageDesk W) → Counted products s' (pull_items c products s'))
          → Counts 1 s r.1
          → Counted (product ∷ products) s (resume (λ _. pull_items c products) r)
      after (ok _, s') q next h = whole s' (pull_items c products s') q h (next s')
      after (raise e, s') q next h = ([], products, product, s, refl, refl, q, h)
