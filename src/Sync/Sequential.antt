-- ===== src/Sync/Sequential.antt =====
-- `_push_products_sequential` of core/sync/engine.py.
pub mod Accounting
use bapp_connectors.Base.{List, Option, String, [], none, some, ◌+◌, ◌∷◌, string_key}
use bapp_connectors.Base.Dict.{put}
use bapp_connectors.Effect.{Action, catch, pure, ◌>>=◌, ◌>>◌}
use bapp_connectors.Sync.Dto.{Product, SyncResult, fail, new_result, product_to_update}
use bapp_connectors.Sync.Adapter.{Matcher, ShopAdapter, error_of, match_remote, present}

module _ {ℓ} {W : Type ℓ} (a : ShopAdapter W) where
  update_stock : Product → String → Action W (Unit {0})
  update_stock product remote_id = elim product.stock [
    | none ↦ pure tt
    | some stock ↦ a.update_product_stock remote_id stock
  ]

  update_price : Product → String → Action W (Unit {0})
  update_price product remote_id = elim product.price [
    | none ↦ pure tt
    | some price ↦ a.update_product_price remote_id price product.currency
  ]

  -- a full update where the adapter can, else stock and price
  update_remote : Product → String → Action W (Unit {0})
  unfolding update_stock update_price product_to_update
  update_remote product remote_id = elim a.update_product [
    | some update_product ↦ update_product (product_to_update product remote_id)
    | none ↦ (do update_stock product remote_id; update_price product remote_id)
  ]

  abbrev created_id : Option Product → Option String
  created_id none = none
  created_id (some product) = present (some product.product_id)

  -- the counters and ids of a product that was created
  count_created : SyncResult → Product → Option Product → SyncResult
  count_created r product created =
      let counted = record r { created = r.created + 1 } in
      elim (created_id created) [
        | none ↦ counted
        | some id ↦ record counted { remote_ids = put product.product_id id counted.remote_ids }
      ]

  create_or_skip :
      Option (Product → Action W (Option Product)) → SyncResult → Product → Action W SyncResult
  unfolding count_created
  create_or_skip none r product = pure (record r { skipped = r.skipped + 1 })
  create_or_skip (some create) r product = do
    created ← create product
    pure (count_created r product created)

  push_matched : SyncResult → Product → Option String → Action W SyncResult
  unfolding update_remote create_or_skip
  push_matched r product none = create_or_skip a.create_product r product
  push_matched r product (some remote_id) = do
    update_remote product remote_id
    pure (record r {
      updated = r.updated + 1;
      remote_ids = put product.product_id remote_id r.remote_ids;
    })

  -- one round of the loop: the counters change only once nothing can raise any more
  push_one : Matcher W → SyncResult → Product → Action W SyncResult
  unfolding push_matched match_remote fail
  push_one match_fn r product =
      catch (do found ← match_remote match_fn product; push_matched r product found)
        (λ e. pure (fail (error_of product e) r))

  push_from : Matcher W → SyncResult → List Product → Action W SyncResult
  unfolding push_one
  push_from match_fn r [] = pure r
  push_from match_fn r (product ∷ products) = do
    r' ← push_one match_fn r product
    push_from match_fn r' products

  unfoldable pub push_sequential : Matcher W → List Product → Action W SyncResult
  unfolding push_from
  push_sequential match_fn products = push_from match_fn new_result products
