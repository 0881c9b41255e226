-- ===== src/Sync/Push.antt =====
-- `push_products` of core/sync/engine.py: in bulk where the adapter can, else product by product.
pub mod Accounting
use bapp_connectors.Base.{List, Option, none, some, ℕ}
use bapp_connectors.Base.Int.{ℤ}
use bapp_connectors.Effect.{Action}
use bapp_connectors.Sync.Dto.{Product, SyncResult}
use bapp_connectors.Sync.Adapter.{BulkUpsert, Matcher, ShopAdapter}
use bapp_connectors.Sync.Sequential.{push_sequential}
use bapp_connectors.Sync.Bulk.{push_bulk}

module _ {ℓ} {W : Type ℓ} (a : ShopAdapter W) (sleep : ℤ → W → W) where
  -- by whether the adapter has `BulkUpsertCapability`
  pub push_by : Option (BulkUpsert W) → List Product → Matcher W → ℕ → ℤ → Action W SyncResult
  unfolding push_bulk push_sequential
  push_by (some u) products match_fn batch_size pause =
      push_bulk u sleep pause match_fn batch_size products
  push_by none products match_fn batch_size pause = push_sequential a match_fn products

  unfoldable pub push_products : List Product → Matcher W → ℕ → ℤ → Action W SyncResult
  unfolding push_by
  push_products = push_by a.bulk_upsert
