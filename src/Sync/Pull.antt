-- ===== src/Sync/Pull.antt =====
-- `pull_products` of core/sync/engine.py. The loop over the pages takes fuel, one for each page;
-- `none` means that it ran out.
pub mod Pages
use bapp_connectors.Base.{
  List, Option, String, [], if◌then◌else◌, none, some, suc, zero, ℕ, ◌++◌, ◌+◌, ◌∷◌,
}
use bapp_connectors.Effect.{Action, Outcome, ok, pure, raise, ◌>>=◌, ◌>>◌}
use bapp_connectors.Sync.Dto.{Product, SyncResult, new_result}
use bapp_connectors.Sync.Adapter.{ShopAdapter, error_of}

module _ {ℓ} {W : Type ℓ} (on_product : Product → Action W (Unit {0})) where
  abbrev count_item : SyncResult → Product → Outcome (Unit {0}) → SyncResult
  count_item r product (ok _) = record r { updated = r.updated + 1 }
  count_item r product (raise e) = record r {
    failed = r.failed + 1;
    errors = r.errors ++ error_of product e ∷ [];
  }

  -- the loop over one page: what the callback raises is counted
  pub pull_items : List Product → SyncResult → W → SyncResult × W
  pull_items [] r w = (r, w)
  pull_items (product ∷ products) r w =
      let (o, w') = on_product product w in pull_items products (count_item r product o) w'

  module _ (a : ShopAdapter W) where
    pull_pages : ℕ → Option String → SyncResult → Action W (Option SyncResult)
    unfolding pull_items
    pull_pages zero cursor r = pure none
    pull_pages (suc fuel) cursor r = do
      page ← a.get_products cursor
      λ w.
          let (r', w') = pull_items page.items r w in
          let rest = pull_pages fuel page.cursor r' w' in
          if page.has_more then rest else (ok (some r'), w')

    unfoldable pub pull_products : ℕ → Option String → Action W (Option SyncResult)
    unfolding pull_pages
    pull_products fuel cursor = pull_pages fuel cursor new_result
