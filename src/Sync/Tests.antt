-- ===== src/Sync/Tests.antt =====
-- The sync engine of core/sync/engine.py over a shop that keeps the number of calls it has seen.
use bapp_connectors.Base.{
  List, Option, String, [], arith, false, if◌then◌else◌, length, none, refl, some, true, ℕ, ◌+◌,
  ◌<>◌, ◌<◌, ◌==◌, ◌∷◌, ◌≡◌, string_key,
}
use bapp_connectors.Base.Int.{pos, ℤ}
use bapp_connectors.Errors.{exception}
use bapp_connectors.Effect.{Action, Returns, ok, raise}
use bapp_connectors.Sync.Dto.{
  CategorySyncResult, Page, Product, ProductCategory, accounted, new_result,
}
use bapp_connectors.Sync.Adapter.{BulkUpsert, CategoryManagement, ShopAdapter, match_remote}
use bapp_connectors.Sync.Bulk.{push_bulk}
use bapp_connectors.Sync.Bulk.Accounting.{push_bulk_accounts}
use bapp_connectors.Sync.Pull.{pull_items, pull_products}
use bapp_connectors.Sync.Pull.Pages.{items_from, pull_products_lem}
use bapp_connectors.Sync.Categories.{sync_categories}
use bapp_connectors.Sync.Categories.Resync.{extend, nothing_done, resync_idle}

abbrev product : String → Product
product id = record {
  product_id = id;
  sku = none;
  barcode = none;
  name = id;
  description = "";
  url = "";
  price = none;
  currency = "RON";
  stock = some (pos 4);
  active = true;
  categories = [];
  category_ids = [];
  photos = [];
  attributes = [];
  variants = [];
  related = [];
  extra = [];
}

abbrev three : List Product
three = product "a" ∷ product "b" ∷ product "c" ∷ []

-- The first product has been created remotely, the others have not.
abbrev known : Product → Action ℕ (Option String)
known p w = if p.product_id == "a" then (ok (some "r1"), w) else (ok none, w)

abbrev pages : Option String → Page
pages none = record { items = product "a" ∷ product "b" ∷ []; cursor = some "2"; has_more = true }
pages (some c) = record { items = product "c" ∷ []; cursor = none; has_more = false }

abbrev category : String → ProductCategory
category id = record { category_id = id; name = id; parent_id = none; extra = [] }

abbrev manager : CategoryManagement ℕ
manager = record {
  accepts_local_category_id = false;
  get_categories = λ w. (ok [], w);
  create_category = λ name parent local w. (ok (category ("r" <> name)), w + 1);
  update_category = λ c w. (ok tt, w + 1);
}

-- A shop where creating fails.
abbrev shop : ShopAdapter ℕ
shop = record {
  get_products = λ cursor w. (ok (pages cursor), w);
  update_product_stock = λ id stock w. (ok tt, w + 1);
  update_product_price = λ id price currency w. (ok tt, w + 1);
  create_product = some (λ p w. (raise (exception "full"), w + 1));
  update_product = none;
  bulk_upsert = none;
  category_management = some manager;
}

-- It answers for the updates, and not for the creations.
abbrev bulk : BulkUpsert ℕ
bulk = record {
  max_batch_size = some 2;
  bulk_upsert_products = λ creates updates w. (
    ok (record {
      created = [];
      updated =
          record { index = 0; remote_id = "r1"; error = ""; error_code = ""; extra = [] } ∷ [];
    }),
    w + 1,
  );
}

abbrev no_sleep : ℤ → ℕ → ℕ
no_sleep d w = w

known_matches : (p : Product) (w : ℕ) → Returns (λ _. Unit) (match_remote (some known) p w).0
unfolding match_remote
known_matches p w = ground arith

push_bulk_accounts_example :
    Returns
      (λ r. (accounted r ≡ 3) × (length r.errors ≡ r.failed))
      (push_bulk bulk no_sleep (pos 1000) (some known) 50 three 0).0
push_bulk_accounts_example =
    push_bulk_accounts (some known) known_matches bulk no_sleep (pos 1000) 50 three 0

-- pages left from a cursor on
abbrev left : Option String → ℕ
left none = 1
left (some c) = 0

left_falls : (c : Option String) → (pages c).has_more ≡ true → left (pages c).cursor < left c
left_falls none h = omega arith
left_falls (some c) h = cc

abbrev seen : Product → Action ℕ (Unit {0})
seen p w = if p.product_id == "b" then (raise (exception "bad"), w) else (ok tt, w + 1)

pull_products_example :
    let items = items_from pages 3 none in
    let s = pull_items seen items new_result 0 in
    (pull_products seen shop 3 none 0 ≡ (ok (some s.0), s.1))
    × (accounted s.0 ≡ length items)
    × (length s.0.errors ≡ s.0.failed)
pull_products_example =
    pull_products_lem seen shop pages left (λ c w. refl) left_falls 3 none 0 (omega arith)

pulled : items_from pages 3 none ≡ three
unfolding items_from
pulled = refl

two_categories : List ProductCategory
two_categories = category "a" ∷ category "b" ∷ []

first_sync : CategorySyncResult
first_sync = record {
  created =
      record { local_id = "a"; remote_id = "ra"; name = "a" }
      ∷ record { local_id = "b"; remote_id = "rb"; name = "b" }
      ∷ [];
  updated = [];
}

first_sync_runs : sync_categories shop two_categories [] true [] 0 ≡ (ok first_sync, 2)
unfolding sync_categories two_categories first_sync
first_sync_runs = refl

resync_idle_example :
    sync_categories shop two_categories (extend [] first_sync.created) false [] 5
    ≡ (ok nothing_done, 5)
resync_idle_example = resync_idle shop two_categories [] true [] [] 0 2 5 first_sync first_sync_runs
