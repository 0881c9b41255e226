-- ===== src/Sync/Pull/Pages.antt =====
-- The pull loop over a provider whose pages end.
use bapp_connectors.Base.{
  Bool, List, Option, String, [], arith, false, if◌then◌else◌, length, refl, some, suc, true, zero,
  ℕ, ◌++◌, ◌<◌, ◌∙◌, ◌∷◌, ◌≡◌,
}
use bapp_connectors.Effect.{Action, Outcome, ok, raise, resume, ◌>>=◌}
use bapp_connectors.Sync.Dto.{Page, Product, SyncResult, accounted, fail, new_result}
use bapp_connectors.Sync.Counting.{Counts, fail-Counts}
use bapp_connectors.Sync.Adapter.{ShopAdapter, error_of}
use bapp_connectors.Sync.Pull.{count_item, pull_items, pull_pages, pull_products}

-- All items from a cursor on, in the order of the pages.
unfoldable pub items_from : (Option String → Page) → ℕ → Option String → List Product
items_from pages zero cursor = []
items_from pages (suc fuel) cursor =
    let page = pages cursor in
    let rest = items_from pages fuel page.cursor in
    page.items ++ (if page.has_more then rest else [])

items_from_lem :
    (pages : Option String → Page) (fuel : ℕ) (c : Option String)
    → items_from pages (suc fuel) c
      ≡ (pages c).items
        ++ (if (pages c).has_more then items_from pages fuel (pages c).cursor else [])
unfolding items_from
items_from_lem pages fuel c = refl

module _ {ℓ} {W : Type ℓ} (on_product : Product → Action W (Unit {0})) where
  pull_items-append :
      (xs ys : List Product) (r : SyncResult) (w : W)
      → pull_items on_product (xs ++ ys) r w
        ≡ (let s = pull_items on_product xs r w in pull_items on_product ys s.0 s.1)
  unfolding pull_items
  pull_items-append [] ys r w = refl
  pull_items-append (x ∷ xs) ys r w =
      let (o, w') = on_product x w in pull_items-append xs ys (count_item on_product r x o) w'

  count_item-Counts :
      (r : SyncResult) (x : Product) (o : Outcome (Unit {0}))
      → Counts r 1 (count_item on_product r x o)
  count_item-Counts r x (ok u) = omega arith
  count_item-Counts r x (raise e) = unfold fail in fail-Counts (error_of x e) r

  pull_items-Counts :
      (xs : List Product) (r : SyncResult) (w : W)
      → Counts r (length xs) (pull_items on_product xs r w).0
  unfolding pull_items
  pull_items-Counts [] r w = omega arith
  pull_items-Counts (x ∷ xs) r w =
      let (o, w') = on_product x w in
      omega (arith, count_item-Counts r x o, pull_items-Counts xs (count_item on_product r x o) w')

module _ {ℓ} {W : Type ℓ} (on_product : Product → Action W (Unit {0})) (a : ShopAdapter W)
    (pages : Option String → Page) (remaining : Option String → ℕ)
    (serves : (c : Option String) (w : W) → a.get_products c w ≡ (ok (pages c), w))
    (ends : (c : Option String)
      → (pages c).has_more ≡ true
      → remaining (pages c).cursor < remaining c) where
  pull_step :
      (fuel : ℕ) (c : Option String) (r : SyncResult) (w : W)
      → pull_pages on_product a (suc fuel) c r w ≡ (
          let s = pull_items on_product (pages c).items r w in
          if (pages c).has_more
          then pull_pages on_product a fuel (pages c).cursor s.0 s.1
          else (ok (some s.0), s.1))
  unfolding pull_pages
  pull_step fuel c r w = rw (serves c w, ◌>>=◌, resume) refl

  after_page :
      (more : Bool) (fuel : ℕ) (c : Option String) (r : SyncResult) (w : W)
      → (more ≡ true
          → pull_pages on_product a fuel c r w
            ≡ (let s = pull_items on_product (items_from pages fuel c) r w in (ok (some s.0), s.1)))
      → (if more then pull_pages on_product a fuel c r w else (ok (some r), w)) ≡ (
          let s = pull_items on_product (if more then items_from pages fuel c else []) r w in
          (ok (some s.0), s.1))
  unfolding pull_items
  after_page true fuel c r w h = h refl
  after_page false fuel c r w h = refl

  pull_pages-items :
      (fuel : ℕ) (c : Option String) (r : SyncResult) (w : W)
      → remaining c < fuel
      → pull_pages on_product a fuel c r w
        ≡ (let s = pull_items on_product (items_from pages fuel c) r w in (ok (some s.0), s.1))
  pull_pages-items zero c r w h = absurd (omega arith)
  pull_pages-items (suc fuel) c r w h =
      let s = pull_items on_product (pages c).items r w in
      pull_step fuel c r w
      ∙ rw (items_from_lem pages fuel c) (
          rw (pull_items-append on_product (pages c).items _ r w) (
            after_page (pages c).has_more fuel (pages c).cursor s.0 s.1 (λ more.
              pull_pages-items fuel (pages c).cursor s.0 s.1 (omega (arith, ends c more)))))

  -- Where the provider serves fixed pages and a measure of the cursor falls from each page to the
  -- next, fuel above the measure is enough: the pull returns, and its result is that of handing every
  -- item of every page, in order and once, to the callback; it counts each as updated or failed, with
  -- one error for each failure.
  pub pull_products_lem :
      (fuel : ℕ) (c : Option String) (w : W)
      → remaining c < fuel
      → let items = items_from pages fuel c in
        let s = pull_items on_product items new_result w in
        (pull_products on_product a fuel c w ≡ (ok (some s.0), s.1))
        × (accounted s.0 ≡ length items)
        × (length s.0.errors ≡ s.0.failed)
  unfolding pull_products
  pull_products_lem fuel c w h =
      let items = items_from pages fuel c in
      let counts = pull_items-Counts on_product items new_result w in
      (pull_pages-items fuel c new_result w h, omega (arith, counts), omega (arith, counts))
