-- ===== src/Sync/Bulk.antt =====
-- `_push_products_bulk` and `_absorb_bulk` of core/sync/engine.py. A batch size below 1 is cut to 1,
-- so a natural number stands for it. The pause is in whole milliseconds.
pub mod Batches
pub mod Accounting
use bapp_connectors.Base.{
  Bool, List, Option, String, [], drop, false, if◌then◌else◌, is_empty, length, ltb, max, min,
  nat_eq, none, not, or_else, some, suc, take, true, truthy, zero, ℕ, ◌&&◌, ◌++◌, ◌+◌, ◌∷◌,
  string_key, number_key,
}
use bapp_connectors.Base.Int.{is_nonzero, ℤ}
use bapp_connectors.Base.Dict.{Dict, get, put}
use bapp_connectors.Errors.{Exn}
use bapp_connectors.Effect.{Action, catch, pure, ◌>>=◌, ◌>>◌}
use bapp_connectors.Sync.Dto.{
  BulkItemResult, BulkUpsertResult, Extra, Product, ProductUpdate, SyncError, SyncResult, fail,
  new_result, product_to_update,
}
use bapp_connectors.Sync.Adapter.{BulkUpsert, Matcher, error_of, match_remote}

-- `range(start, stop, step)`, on fuel
range_step : ℕ → ℕ → ℕ → ℕ → List ℕ
range_step zero start stop step = []
range_step (suc fuel) start stop step =
    let rest = range_step fuel (start + step) stop step in
    if ltb start stop then start ∷ rest else []

-- `max_batch_size or 100`
pub batch_limit : Option ℕ → ℕ
batch_limit none = 100
batch_limit (some n) = if nat_eq n 0 then 100 else n

pub batch_size_of {ℓ} : {W : Type ℓ} → BulkUpsert W → ℕ → ℕ
unfolding batch_limit
batch_size_of u batch_size = max 1 (min batch_size (batch_limit u.max_batch_size))

pub starts : ℕ → ℕ → List ℕ
unfolding range_step
starts n size = range_step n 0 n size

-- `products[start:start + size]`
abbrev pub chunk_at : List Product → ℕ → ℕ → List Product
chunk_at products size start = take size (drop start products)

-- `creates`, `updates` and `update_src`
pub record Split : Type 0 where
  pub creates : List Product
  pub updates : List ProductUpdate
  pub update_src : List Product

place : Product → Option String → Split → Split
unfolding product_to_update
place product none s = record s { creates = product ∷ s.creates }
place product (some remote_id) s = record s {
  updates = product_to_update product remote_id ∷ s.updates;
  update_src = product ∷ s.update_src;
}

pub split_chunk {ℓ} : {W : Type ℓ} → Matcher W → List Product → Action W Split
unfolding place match_remote
split_chunk match_fn [] = pure (record { creates = []; updates = []; update_src = [] })
split_chunk match_fn (product ∷ products) = do
  found ← match_remote match_fn product
  rest ← split_chunk match_fn products
  pure (place product found rest)

-- `{item.index: item for item in items}`
by_index : Dict ℕ BulkItemResult → List BulkItemResult → Dict ℕ BulkItemResult
by_index d [] = d
by_index d (item ∷ items) = by_index (put item.index item d) items

-- the error of an item that is missing or carries one
item_error : Product → Option BulkItemResult → Option SyncError
item_error source none = some (record {
  product_id = source.product_id;
  error = "no result returned for item";
  code = "";
  retryable = false;
  extra = [];
})
item_error source (some item) =
    if truthy item.error
    then some (record {
      product_id = source.product_id;
      error = item.error;
      code = item.error_code;
      retryable = false;
      extra = item.extra;
    })
    else none

nth : List String → ℕ → String
nth [] i = ""
nth (x ∷ xs) zero = x
nth (x ∷ xs) (suc i) = nth xs i

store_id : String → String → SyncResult → SyncResult
store_id local_id remote_id r =
    if truthy remote_id then record r { remote_ids = put local_id remote_id r.remote_ids } else r

store_meta : String → Extra → SyncResult → SyncResult
store_meta local_id extra r =
    if is_empty extra then r else record r { remote_meta = put local_id extra r.remote_meta }

count_item : Bool → SyncResult → SyncResult
count_item created r =
    if created then record r { created = r.created + 1 } else record r { updated = r.updated + 1 }

-- the part for an item without an error
keep_item : Bool → List String → ℕ → Product → BulkItemResult → SyncResult → SyncResult
unfolding nth store_id store_meta count_item
keep_item created remote_ids idx source item r = store_meta source.product_id item.extra (
    store_id source.product_id (or_else item.remote_id (nth remote_ids idx)) (count_item created r))

keep_found : Bool → List String → ℕ → Product → Option BulkItemResult → SyncResult → SyncResult
unfolding keep_item
keep_found created remote_ids idx source none r = r
keep_found created remote_ids idx source (some item) r =
    keep_item created remote_ids idx source item r

absorb_item : Bool → List String → ℕ → Product → Option BulkItemResult → SyncResult → SyncResult
unfolding item_error keep_found
absorb_item created remote_ids idx source item r = elim (item_error source item) [
  | some e ↦ fail e r
  | none ↦ keep_found created remote_ids idx source item r
]

absorb_from :
    Bool → List String → Dict ℕ BulkItemResult → ℕ → List Product → SyncResult → SyncResult
unfolding absorb_item
absorb_from created remote_ids items idx [] r = r
absorb_from created remote_ids items idx (source ∷ sources) r =
    absorb_from created remote_ids items (idx + 1) sources
      (absorb_item created remote_ids idx source (get idx items) r)

-- `_absorb_bulk`
pub absorb_bulk : Bool → List String → List BulkItemResult → List Product → SyncResult → SyncResult
unfolding absorb_from by_index fail
absorb_bulk created remote_ids items sources r =
    absorb_from created remote_ids (by_index [] items) 0 sources r

-- a batch that raised: every product of it has failed
fail_all : Exn → List Product → SyncResult → SyncResult
unfolding fail
fail_all e [] r = r
fail_all e (product ∷ products) r = fail_all e products (fail (error_of product e) r)

update_ids : List ProductUpdate → List String
update_ids [] = []
update_ids (u ∷ us) = u.product_id ∷ update_ids us

absorb_both : Split → BulkUpsertResult → SyncResult → SyncResult
unfolding absorb_bulk update_ids
absorb_both s bulk r =
    absorb_bulk false (update_ids s.updates) bulk.updated s.update_src
      (absorb_bulk true [] bulk.created s.creates r)

module _ {ℓ} {W : Type ℓ} (u : BulkUpsert W) (sleep : ℤ → W → W) (pause : ℤ) where
  -- `if not first and pause_seconds: sleep(pause_seconds)`
  pause_between : Bool → W → W
  pause_between first w = if not first && is_nonzero pause then sleep pause w else w

  send_batch : Bool → Split → SyncResult → Action W SyncResult
  unfolding absorb_both fail_all pause_between
  send_batch first s r w =
      catch (do bulk ← u.bulk_upsert_products s.creates s.updates; pure (absorb_both s bulk r))
        (λ e. pure (fail_all e (s.creates ++ s.update_src) r)) (pause_between first w)

  -- `if not creates and not updates: continue`
  send_or_skip : Bool → SyncResult → Split → Action W (Bool × SyncResult)
  unfolding send_batch
  send_or_skip first r s =
      if is_empty s.creates && is_empty s.updates
      then pure (first, r)
      else (do r' ← send_batch first s r; pure (false, r'))

  -- one round of the loop; what `match_fn` raises is not caught
  push_batch : Matcher W → Bool → SyncResult → List Product → Action W (Bool × SyncResult)
  unfolding send_or_skip split_chunk
  push_batch match_fn first r chunk = do s ← split_chunk match_fn chunk; send_or_skip first r s

  push_batches : Matcher W → ℕ → List Product → List ℕ → Bool → SyncResult → Action W SyncResult
  unfolding push_batch
  push_batches match_fn size products [] first r = pure r
  push_batches match_fn size products (start ∷ more) first r = do
    next ← push_batch match_fn first r (chunk_at products size start)
    push_batches match_fn size products more next.0 next.1

  unfoldable pub push_bulk : Matcher W → ℕ → List Product → Action W SyncResult
  unfolding push_batches batch_size_of starts
  push_bulk match_fn batch_size products =
      let size = batch_size_of u batch_size in
      push_batches match_fn size products (starts (length products) size) true new_result
