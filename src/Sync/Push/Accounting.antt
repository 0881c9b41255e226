-- ===== src/Sync/Push/Accounting.antt =====
-- Every product of a push of core/sync/engine.py is counted once, on either path.
use bapp_connectors.Base.{List, Option, String, length, none, some, ℕ, ◌≡◌}
use bapp_connectors.Base.Int.{ℤ}
use bapp_connectors.Effect.{Action, Returns, Returns-value, ok}
use bapp_connectors.Sync.Dto.{Product, SyncResult, accounted}
use bapp_connectors.Sync.Adapter.{BulkUpsert, ShopAdapter, match_remote}
use bapp_connectors.Sync.Sequential.Accounting.{push_sequential_accounts}
use bapp_connectors.Sync.Bulk.Accounting.{push_bulk_accounts}
use bapp_connectors.Sync.Push.{push_by, push_products}

module _ {ℓ} {W : Type ℓ} (a : ShopAdapter W) (sleep : ℤ → W → W)
    (match_fn : Product → Action W (Option String))
    (matches : (p : Product) (w : W)
      → Returns (λ _. Unit) (match_remote (some match_fn) p w).0) where
  push_by_accounts :
      (u : Option (BulkUpsert W)) (products : List Product) (size : ℕ) (pause : ℤ) (w : W)
      → Returns
          (λ r. (accounted r ≡ length products) × (length r.errors ≡ r.failed))
          (push_by a sleep u products (some match_fn) size pause w).0
  unfolding push_by
  push_by_accounts none products size pause w =
      push_sequential_accounts a (some match_fn) products w
  push_by_accounts (some u) products size pause w =
      push_bulk_accounts (some match_fn) matches u sleep pause size products w

  -- a matcher that never raises makes a push return
  pub push_products-value :
      (products : List Product) (size : ℕ) (pause : ℤ) (w : W)
      → (r : SyncResult) × ((push_products a sleep products (some match_fn) size pause w).0 ≡ ok r)
  unfolding push_products
  push_products-value products size pause w =
      Returns-value (λ r. (accounted r ≡ length products) × (length r.errors ≡ r.failed))
        (push_by a sleep a.bulk_upsert products (some match_fn) size pause w).0
        (push_by_accounts a.bulk_upsert products size pause w)
