-- ===== src/Sync/Adapter.antt =====
-- core/ports/shop.py and the capabilities of core/capabilities that the engine asks for: a shop
-- adapter by its methods, over a state `W` of the outside world. A capability that an adapter may
-- lack is an option: `isinstance` is whether it is there.
use bapp_connectors.Base.{Bool, List, Option, String, [], if◌then◌else◌, none, some, truthy, ℕ}
use bapp_connectors.Base.Int.{ℤ}
use bapp_connectors.Errors.{Exn, retryable_attr, text_of}
use bapp_connectors.Effect.{Action, pure, ◌>>=◌}
use bapp_connectors.Sync.Dto.{
  BulkUpsertResult, Page, Product, ProductCategory, ProductUpdate, SyncError,
}

pub record BulkUpsert {ℓ} (W : Type ℓ) : Type ℓ where
  pub max_batch_size : Option ℕ
  pub bulk_upsert_products : List Product → List ProductUpdate → Action W BulkUpsertResult

pub record CategoryManagement {ℓ} (W : Type ℓ) : Type ℓ where
  pub accepts_local_category_id : Bool
  pub get_categories : Action W (List ProductCategory)
  -- the name, the parent and, where it is passed, the local id
  pub create_category : String → Option String → Option String → Action W ProductCategory
  pub update_category : ProductCategory → Action W (Unit {0})

pub record ShopAdapter {ℓ} (W : Type ℓ) : Type ℓ where
  pub get_products : Option String → Action W Page
  pub update_product_stock : String → ℤ → Action W (Unit {0})
  pub update_product_price : String → ℤ → String → Action W (Unit {0})
  pub create_product : Option (Product → Action W (Option Product))
  pub update_product : Option (ProductUpdate → Action W (Unit {0}))
  pub bulk_upsert : Option (BulkUpsert W)
  pub category_management : Option (CategoryManagement W)

-- A `ProductMatcher`, where one is given.
abbrev pub Matcher {ℓ} : Type ℓ → Type ℓ
Matcher W = Option (Product → Action W (Option String))

-- `if remote_id`: an empty id counts as none
abbrev pub present : Option String → Option String
present none = none
present (some id) = if truthy id then some id else none

-- `match_fn(product) if match_fn else None`, read as a truth value
unfoldable pub match_remote {ℓ} : {W : Type ℓ} → Matcher W → Product → Action W (Option String)
match_remote none product = pure none
match_remote (some match_fn) product = do found ← match_fn product; pure (present found)

-- the error of a product whose handling raised
abbrev pub error_of : Product → Exn → SyncError
error_of product e = record {
  product_id = product.product_id;
  error = text_of e;
  code = "";
  retryable = retryable_attr e;
  extra = [];
}
