-- ===== src/Sync/Bulk/Batches.antt =====
-- The batches of a bulk push cut the list of products.
use native.Mathlib.Nat.{zero-add, suc-add}
use bapp_connectors.Base.{
  All, Bool-cases, List, [], ap, arith, drop, inl, inr, length, length-take, ltb, max, refl, suc,
  sym, take, take-append-drop, zero, ℕ, ◌++◌, ◌+◌, ◌∙◌, ◌∷◌, ◌≡◌, ◌≤◌,
}
use bapp_connectors.Sync.Dto.{Product}
use bapp_connectors.Sync.Bulk.{batch_limit, batch_size_of, chunk_at, range_step, starts}
use bapp_connectors.Sync.Adapter.{BulkUpsert}

-- the batches put together
unfoldable pub joined : List Product → ℕ → List ℕ → List Product
joined products size [] = []
joined products size (start ∷ more) = chunk_at products size start ++ joined products size more

drop-nil {ℓ} : {A : Type ℓ} (m : ℕ) → drop {A = A} m [] ≡ []
drop-nil zero = refl
drop-nil (suc m) = refl

drop-drop {ℓ} : {A : Type ℓ} (m n : ℕ) (xs : List A) → drop m (drop n xs) ≡ drop (n + m) xs
drop-drop m zero xs = rw zero-add
drop-drop {A} m (suc n) [] = drop-nil m ∙ sym (drop-nil {A = A} (suc n + m))
drop-drop m (suc n) (x ∷ xs) = rw suc-add (drop-drop m n xs)

drop_past {ℓ} : {A : Type ℓ} (n : ℕ) (xs : List A) → length xs ≤ n → drop n xs ≡ []
drop_past n [] h = drop-nil n
drop_past zero (x ∷ xs) h = absurd (omega arith)
drop_past (suc n) (x ∷ xs) h = drop_past n xs (omega arith)

joined-range :
    (products : List Product) (size fuel start : ℕ)
    → 1 ≤ size
    → length products ≤ start + fuel
    → joined products size (range_step fuel start (length products) size) ≡ drop start products
unfolding joined range_step
joined-range products size zero start h f = sym (drop_past start products (omega arith))
joined-range products size (suc fuel) start h f = elim (Bool-cases (ltb start (length products))) [
  | inr past ↦ rw past (sym (drop_past start products (ground arith)))
  | inl more ↦ rw more (
      ap (λ l. take size (drop start products) ++ l)
        (joined-range products size fuel (start + size) h (omega arith)
          ∙ sym (drop-drop size start products))
      ∙ take-append-drop size (drop start products))
]

length-take_le {ℓ} : {A : Type ℓ} (n : ℕ) (xs : List A) → length (take n xs) ≤ n
length-take_le n xs = omega (arith, length-take n xs)

chunks_fit :
    (products : List Product) (size : ℕ) (l : List ℕ)
    → All (λ start. length (chunk_at products size start) ≤ size) l
chunks_fit products size [] = tt
chunks_fit products size (start ∷ l) =
    (length-take_le size (drop start products), chunks_fit products size l)

-- The batches of a bulk push put together are the list of products in its order, no batch is larger
-- than the batch size, and that size lies between 1 and the limit of the adapter.
pub batches_cut {ℓ} :
    {W : Type ℓ} (u : BulkUpsert W) (batch_size : ℕ) (products : List Product)
    → let size = batch_size_of u batch_size in
      let all = starts (length products) size in
      (joined products size all ≡ products)
      × All (λ start. length (chunk_at products size start) ≤ size) all
      × (1 ≤ size)
      × (size ≤ max 1 (batch_limit u.max_batch_size))
unfolding starts batch_size_of
batches_cut u batch_size products = (
  joined-range products _ (length products) 0 (omega arith) (omega arith),
  chunks_fit products _ _,
  omega arith,
  omega arith,
)
