-- ===== src/Django/Push/Tests.antt =====
-- services/push.py over a shop that counts its calls.
use bapp_connectors.Django.Push.Report.{PushItem, PushReport, new_report}
use bapp_connectors.Django.Desk.{Desk, is_held}
use bapp_connectors.Errors.{exception}
use bapp_connectors.Base.{
  All, List, Option, String, [], false, none, refl, some, true, ℕ, ◌+◌, ◌<>◌, ◌∷◌, ◌≡◌, ◌⊎◌,
  string_key,
}
use bapp_connectors.Base.Int.{pos}
use bapp_connectors.Effect.{ok, raise}
use bapp_connectors.Sync.Dto.{Product}
use bapp_connectors.Sync.Adapter.{ShopAdapter}
use bapp_connectors.Django.Connection.{Connection}
use bapp_connectors.Django.SyncState.{idle}
use bapp_connectors.Django.Push.{PushCall, push}
use bapp_connectors.Django.Push.Lock.{LetGo, push-IsReleased}
use bapp_connectors.Django.Push.Accounting.{push_accounts}
use bapp_connectors.Django.Push.Again.{HasRemote, push_again}

abbrev product : String → Product
product id = record {
  product_id = id;
  sku = none;
  barcode = none;
  name = id;
  description = "";
  url = "";
  price = none;
  currency = "RON";
  stock = some (pos 4);
  active = true;
  categories = [];
  category_ids = [];
  photos = [];
  attributes = [];
  variants = [];
  related = [];
  extra = [];
}

abbrev item : String → PushItem
item id = record { local_id = id; dto = product id; content_hash = "h" <> id; extra = [] }

abbrev two_items : List PushItem
two_items = item "a" ∷ item "b" ∷ []

abbrev shop : ShopAdapter ℕ
shop = record {
  get_products = λ cursor w. (raise (exception "gone"), w);
  update_product_stock = λ id stock w. (ok tt, w + 1);
  update_product_price = λ id price currency w. (ok tt, w + 1);
  create_product = some (λ p w. (ok (some (product ("r" <> p.product_id))), w + 1));
  update_product = none;
  bulk_upsert = none;
  category_management = none;
}

abbrev call_of : Option (ShopAdapter ℕ) → PushCall ℕ
call_of a = record {
  get_adapter = λ w. (raise (exception "no adapter"), w + 1);
  adapter = a;
  batch_size = 50;
  pause_seconds = pos 0;
  sleep = λ d w. w;
  now = λ w. w;
  cursor = "";
  release_lock = true;
}

abbrev desk : Desk PushReport ℕ
desk =
    let c : Connection = record {
      provider_family = "shop";
      provider_name = "woocommerce";
      is_enabled = true;
      is_connected = true;
      auth_failure_count = 0;
      last_auth_failure_at = none;
      disabled_reason = "";
      updated_at = 0;
    } in
    record {
      report = new_report;
      links = [];
      state = record {
        resource_type = "products";
        cursor = "";
        last_sync_at = none;
        status = idle;
        error_count = 0;
        last_error = "";
        updated_at = some 0;
      };
      store = record { object = c; row = c; sent = [] };
      outside = 5;
    }

push-IsReleased_example :
    let d' = push (call_of none) two_items desk in
    ((is_held 5 desk.state ≡ true)
      × (d' ≡ record desk { report = record new_report { locked = true } }))
    ⊎ ((is_held 5 desk.state ≡ false) × LetGo true d'.state.status)
push-IsReleased_example = push-IsReleased (call_of none) two_items desk

free : is_held 5 desk.state ≡ false
unfolding is_held
free = refl

push_accounts_example :
    let d' = push (call_of (some shop)) two_items desk in
    (d'.report.processed ≡ 2)
    × (d'.report.created + d'.report.updated + d'.report.skipped_unchanged + d'.report.failed ≡ 2)
    × (d'.store ≡ desk.store)
push_accounts_example = push_accounts (call_of (some shop)) shop refl two_items desk free

two_linked : All (HasRemote (push (call_of (some shop)) two_items desk).links) two_items
unfolding push
two_linked = (refl, (refl, tt))

none_failed : (push (call_of (some shop)) two_items desk).report.failed ≡ 0
unfolding push
none_failed = refl

push_again_example :
    let d1 = push (call_of (some shop)) two_items desk in
    let d2 = push (call_of (some shop)) two_items d1 in
    (d2.report ≡ record new_report { processed = 2; skipped_unchanged = 2 })
    × (d2.links ≡ d1.links)
    × (d2.store ≡ d1.store)
    × (d2.outside ≡ d1.outside)
push_again_example =
    push_again (call_of (some shop)) shop refl two_items desk free refl (refl, (refl, tt))
      none_failed two_linked
