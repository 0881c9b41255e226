-- ===== src/Sync/Dto.antt =====
-- core/sync/dto.py and the parts of core/dto/product.py and core/dto/base.py that the engine reads.
-- Amounts of money are integers in a fixed unit. The code reads texts from `extra` and passes the
-- rest on, so its values are texts; the nested records of a product are passed on and stand as texts.
use bapp_connectors.Base.{Bool, List, Option, String, [], none, some, ℕ, ◌++◌, ◌+◌, ◌∷◌}
use bapp_connectors.Base.Int.{ℤ}
use bapp_connectors.Base.Dict.{Dict}

abbrev pub Extra : Type 0
Extra = Dict String String

pub record Product : Type 0 where
  pub product_id : String
  pub sku : Option String
  pub barcode : Option String
  pub name : String
  pub description : String
  pub url : String
  pub price : Option ℤ
  pub currency : String
  pub stock : Option ℤ
  pub active : Bool
  pub categories : List String
  pub category_ids : List String
  pub photos : List String
  pub attributes : List String
  pub variants : List String
  pub related : List String
  pub extra : Extra

pub record ProductUpdate : Type 0 where
  pub product_id : String
  pub sku : Option String
  pub barcode : Option String
  pub name : Option String
  pub description : Option String
  pub price : Option ℤ
  pub currency : Option String
  pub stock : Option ℤ
  pub active : Option Bool
  pub categories : Option (List String)
  pub category_ids : Option (List String)
  pub photos : Option (List String)
  pub attributes : Option (List String)
  pub variants : Option (List String)
  pub related : Option (List String)
  pub extra : Extra

pub record ProductCategory : Type 0 where
  pub category_id : String
  pub name : String
  pub parent_id : Option String
  pub extra : Extra

-- `PaginatedResult`
pub record Page : Type 0 where
  pub items : List Product
  pub cursor : Option String
  pub has_more : Bool

pub record BulkItemResult : Type 0 where
  pub index : ℕ
  pub remote_id : String
  pub error : String
  pub error_code : String
  pub extra : Extra

pub record BulkUpsertResult : Type 0 where
  pub created : List BulkItemResult
  pub updated : List BulkItemResult

pub record SyncError : Type 0 where
  pub product_id : String
  pub error : String
  pub code : String
  pub retryable : Bool
  pub extra : Extra

pub record SyncResult : Type 0 where
  pub created : ℕ
  pub updated : ℕ
  pub skipped : ℕ
  pub failed : ℕ
  pub errors : List SyncError
  pub remote_ids : Dict String String
  pub remote_meta : Dict String Extra

abbrev pub new_result : SyncResult
new_result = record {
  created = 0;
  updated = 0;
  skipped = 0;
  failed = 0;
  errors = [];
  remote_ids = [];
  remote_meta = [];
}

pub record CategoryMapping : Type 0 where
  pub local_id : String
  pub remote_id : String
  pub name : String

pub record CategorySyncResult : Type 0 where
  pub created : List CategoryMapping
  pub updated : List String

-- `result.failed += 1` and `result.errors.append(...)`
unfoldable pub fail : SyncError → SyncResult → SyncResult
fail e r = record r { failed = r.failed + 1; errors = r.errors ++ e ∷ [] }

-- Every product of a push ends in one of four counters.
abbrev pub accounted : SyncResult → ℕ
accounted r = r.created + r.updated + r.skipped + r.failed

-- `xs if xs else None`
abbrev pub unless_empty {ℓ} : {A : Type ℓ} → List A → Option (List A)
unless_empty [] = none
unless_empty (x ∷ xs) = some (x ∷ xs)

-- `_product_to_update`
unfoldable pub product_to_update : Product → String → ProductUpdate
product_to_update product remote_id = record {
  product_id = remote_id;
  sku = product.sku;
  barcode = product.barcode;
  name = some product.name;
  description = some product.description;
  price = product.price;
  currency = some product.currency;
  stock = product.stock;
  active = some product.active;
  categories = unless_empty product.categories;
  category_ids = unless_empty product.category_ids;
  photos = unless_empty product.photos;
  attributes = none;
  variants = none;
  related = none;
  extra = product.extra;
}
