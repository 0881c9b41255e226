-- ===== src/Django/Pull/Tests.antt =====
-- services/pull.py over a shop that counts its calls.
use bapp_connectors.Base.{
  Option, String, [], arith, false, none, refl, some, true, truthy, ℕ, ◌+◌, ◌∷◌, ◌≡◌, ◌⊎◌,
  string_key,
}
use bapp_connectors.Base.Int.{pos}
use bapp_connectors.Errors.{exception}
use bapp_connectors.Effect.{Action, ok, raise}
use bapp_connectors.Sync.Dto.{Product}
use bapp_connectors.Django.Connection.{Connection}
use bapp_connectors.Django.SyncState.{idle}
use bapp_connectors.Django.Links.{SyncLink, linked}
use bapp_connectors.Django.Desk.{Desk, is_held}
use bapp_connectors.Django.Pull.{Objects, PullDecision, PullReport, new_report}
use bapp_connectors.Django.Pull.Pages.{PullCall, PullSource, is_echo, pull, pull_items, pull_one}
use bapp_connectors.Django.Pull.Pages.Accounting.{Counted, pull_items_counts}
use bapp_connectors.Django.Pull.Pages.Items.{pull_one_raised}
use bapp_connectors.Django.Pull.Pages.Ending.{Ends, pull-Ends}

abbrev product : String → Product
product id = record {
  product_id = id;
  sku = none;
  barcode = none;
  name = id;
  description = "";
  url = "";
  price = none;
  currency = "RON";
  stock = some (pos 4);
  active = true;
  categories = [];
  category_ids = [];
  photos = [];
  attributes = [];
  variants = [];
  related = [];
  extra = ("date_modified_gmt", "t1") ∷ [];
}

abbrev link : SyncLink
link = record {
  local_id = "7";
  remote_id = "r7";
  content_hash = "h7";
  remote_hash = "t1";
  status = linked;
  last_error = "";
  last_pushed_at = some 1;
  last_pulled_at = none;
  extra = [];
}

-- The callback raises on what it does not know.
abbrev on_item : Product → Option SyncLink → Action ℕ PullDecision
on_item product none w = (raise (exception ""), w + 1)
on_item product (some _) w = (raise (exception "no room"), w + 1)

-- A shop that always has a next page.
abbrev source : PullSource ℕ
source = record {
  get_products = λ cursor w. (
    ok (record { items = product "r7" ∷ product "r8" ∷ []; cursor = some "p2"; has_more = true }),
    w + 1,
  );
  get_products_since = none;
}

abbrev pull_call : PullCall ℕ
pull_call = record {
  get_adapter = λ w. (ok source, w);
  adapter = none;
  on_item = on_item;
  duplicate = exception "UNIQUE constraint failed";
  full = false;
  max_pages = some 2;
  now = λ w. w;
}

abbrev desk : Desk PullReport ℕ
desk =
    let c : Connection = record {
      provider_family = "shop";
      provider_name = "woocommerce";
      is_enabled = true;
      is_connected = true;
      auth_failure_count = 0;
      last_auth_failure_at = none;
      disabled_reason = "";
      updated_at = 0;
    } in
    record {
      report = new_report;
      links = ("7", link) ∷ [];
      state = record {
        resource_type = "products";
        cursor = "";
        last_sync_at = none;
        status = idle;
        error_count = 0;
        last_error = "";
        updated_at = some 0;
      };
      store = record { object = c; row = c; sent = [] };
      outside = 5;
    }

pull-Ends_example :
    ((is_held 5 desk.state ≡ true)
      × (pull pull_call 2 desk
          ≡ (ok (some tt), record desk { report = record new_report { locked = true } })))
    ⊎ ((is_held 5 desk.state ≡ false) × Ends pull_call 2 (pull pull_call 2 desk))
pull-Ends_example = pull-Ends pull_call 2 2 desk refl (omega arith)

abbrev objects : Objects
objects = ("r7", link) ∷ []

pull_items_counts_example :
    let products = product "r7" ∷ product "r8" ∷ [] in
    Counted pull_call products (objects, desk) (pull_items pull_call products (objects, desk))
pull_items_counts_example =
    pull_items_counts pull_call (product "r7" ∷ product "r8" ∷ []) (objects, desk)

echo : is_echo "t1" (some link) ≡ true
unfolding is_echo
echo = refl

fresh : is_echo "t1" none ≡ false
unfolding is_echo
fresh = refl

pull_one_raised_example :
    let r = (pull_one pull_call (product "r8") (objects, desk)).1.1.report in
    (truthy "" ≡ true → r.failed ≡ 1)
    × (truthy "" ≡ false → (r.failed ≡ 0) × (r.created + r.updated ≡ 1))
pull_one_raised_example =
    pull_one_raised pull_call (product "r8") objects desk (exception "") refl fresh
