-- ===== src/Django/Push.antt =====
-- packages/django/src/django_bapp_connectors/services/push.py over the engine of Sync. A run sees the
-- links that it loads and those that it creates, and no other run writes them meanwhile. Times are
-- whole milliseconds; the clock is a function of the outside world.
pub mod Report
pub mod Selection
pub mod Settlement
pub mod Lock
pub mod Accounting
pub mod Again
pub mod Tests
use bapp_connectors.Django.Push.Report.{PushItem, PushReport, ReportError, count_link, new_report}
use bapp_connectors.Django.Desk.{Desk, acquire_lock, outside_only}
use bapp_connectors.Base.{
  Bool, List, Option, String, [], false, if◌then◌else◌, is_empty, length, none, not, or_else, some,
  text_or_empty, true, truthy, ℕ, ◌&&◌, ◌++◌, ◌+◌, ◌==◌, ◌∷◌, string_key,
}
use bapp_connectors.Base.Int.{ℤ}
use bapp_connectors.Base.Dict.{Dict, get, put}
use bapp_connectors.Errors.{Exn, is_authentication_error, text_of}
use bapp_connectors.Effect.{Action, catch, ok, pure, ◌>>=◌, ◌>>◌}
use bapp_connectors.Sync.Dto.{Extra, Product, SyncError, SyncResult}
use bapp_connectors.Sync.Adapter.{ShopAdapter, present}
use bapp_connectors.Sync.Push.{push_products}
use bapp_connectors.Django.Connection.{record_auth_failure}
use bapp_connectors.Django.SyncState.{failed, mark_completed, mark_failed}
use bapp_connectors.Django.Links.{
  LinkUpdate, Links, SyncLink, get_or_create, is_linked, mark_error, mark_linked, new_link,
}

pub is_unchanged : PushItem → SyncLink → Bool
is_unchanged item link =
    is_linked link.status && truthy link.remote_id && link.content_hash == item.content_hash

-- The loop that sorts the items: what is left to push, and the links with those created for it.
pub record Selected : Type 0 where
  pub links : Links
  pub to_push : List PushItem
  pub skipped : ℕ

abbrev keep_item : PushItem → Selected → Selected
keep_item item s = record s { to_push = item ∷ s.to_push }

abbrev pub skip_item : Selected → Selected
skip_item s = record s { skipped = s.skipped + 1 }

pub unchanged_link : PushItem → Option SyncLink → Bool
unfolding is_unchanged
unchanged_link item none = false
unchanged_link item (some link) = is_unchanged item link

pub ensure_link : String → Links → Links
ensure_link local_id links = (get_or_create local_id "" links).1

unfoldable pub select : List PushItem → Links → Selected
unfolding unchanged_link ensure_link
select [] links = record { links = links; to_push = []; skipped = 0 }
select (item ∷ items) links =
    if unchanged_link item (get item.local_id links)
    then skip_item (select items links)
    else keep_item item (select items (ensure_link item.local_id links))

abbrev id_if_present : Option SyncLink → Option String
id_if_present none = none
id_if_present (some link) = present (some link.remote_id)

-- `match_fn`
pub match_link {ℓ} : {W : Type ℓ} → Links → Product → Action W (Option String)
match_link links dto = pure (id_if_present (get dto.product_id links))

-- `{e.product_id: e for e in errors}`
pub errors_by_id : Dict String SyncError → List SyncError → Dict String SyncError
errors_by_id d [] = d
errors_by_id d (e ∷ errors) = errors_by_id (put e.product_id e d) errors

abbrev error_extra : SyncError → Extra
error_extra e = if truthy e.code then put "error_code" e.code e.extra else e.extra

abbrev extra_or_empty : Option Extra → Extra
extra_or_empty none = []
extra_or_empty (some e) = e

abbrev link_or_new : String → Option SyncLink → SyncLink
link_or_new local_id none = new_link local_id ""
link_or_new local_id (some link) = link

link_update : SyncResult → PushItem → SyncLink → LinkUpdate
link_update result item link = record {
  remote_id = or_else (text_or_empty (get item.local_id result.remote_ids)) link.remote_id;
  content_hash = item.content_hash;
  remote_hash =
      text_or_empty
        (get "date_modified_gmt" (extra_or_empty (get item.local_id result.remote_meta)));
  pushed = true;
  pulled = false;
  extra = item.extra;
}

note_error : PushItem → SyncLink → SyncError → Links × PushReport → Links × PushReport
unfolding mark_error
note_error item link e (links, r) = (
  put item.local_id (mark_error e.error (error_extra e) link) links,
  record r {
    failed = r.failed + 1;
    errors =
        r.errors
        ++ record {
          local_id = item.local_id;
          error = e.error;
          code = e.code;
          extra = error_extra e;
        }
          ∷ [];
  },
)

note_linked : ℕ → SyncResult → PushItem → SyncLink → Links × PushReport → Links × PushReport
unfolding mark_linked link_update
note_linked now result item link (links, r) = (
  put item.local_id (mark_linked now (link_update result item link) link) links,
  count_link (not (truthy link.remote_id)) r,
)

pub settle_one :
    ℕ → SyncResult → PushItem → Option SyncError → Links × PushReport → Links × PushReport
unfolding note_error note_linked
settle_one now result item (some e) (links, r) =
    note_error item (link_or_new item.local_id (get item.local_id links)) e (links, r)
settle_one now result item none (links, r) =
    note_linked now result item (link_or_new item.local_id (get item.local_id links)) (links, r)

-- the loop over what was pushed
pub settle_pushed :
    ℕ → SyncResult → Dict String SyncError → List PushItem → Links × PushReport → Links × PushReport
unfolding settle_one
settle_pushed now result errors [] s = s
settle_pushed now result errors (item ∷ items) s =
    settle_pushed now result errors items (settle_one now result item (get item.local_id errors) s)

abbrev dtos : List PushItem → List Product
dtos [] = []
dtos (item ∷ items) = item.dto ∷ dtos items

-- What a push is called with.
pub record PushCall {ℓ} (W : Type ℓ) : Type ℓ where
  -- `ConnectionService.get_adapter(connection)`, and the adapter where the caller has one
  pub get_adapter : Action W (ShopAdapter W)
  pub adapter : Option (ShopAdapter W)
  pub batch_size : ℕ
  pub pause_seconds : ℤ
  pub sleep : ℤ → W → W
  pub now : W → ℕ
  pub cursor : String
  pub release_lock : Bool

abbrev auth_code : Bool → String
auth_code true = "auth"
auth_code false = ""

module _ {ℓ} {W : Type ℓ} (c : PushCall W) where
  resolve_adapter : Action W (ShopAdapter W)
  resolve_adapter = elim c.adapter [ none ↦ c.get_adapter | some a ↦ pure a ]

  -- what follows the engine's push
  absorb_result : List PushItem → SyncResult → Action (Desk PushReport W) (Unit {0})
  unfolding settle_pushed errors_by_id
  absorb_result to_push result d =
      let (links, r) =
        settle_pushed (c.now d.outside) result (errors_by_id [] result.errors) to_push
          (d.links, d.report) in
      (ok tt, record d { links = links; report = r })

  -- `engine.push_products(...)` with the links as they are
  call_engine : ShopAdapter W → List PushItem → Action (Desk PushReport W) SyncResult
  unfolding match_link push_products
  call_engine a to_push d =
      outside_only
        (push_products a c.sleep (dtos to_push) (some (match_link d.links)) c.batch_size
          c.pause_seconds)
        d

  -- `if to_push: ...`
  push_selected : ShopAdapter W → List PushItem → Action (Desk PushReport W) (Unit {0})
  unfolding absorb_result call_engine
  push_selected a to_push =
      if is_empty to_push
      then pure tt
      else (do result ← call_engine a to_push; absorb_result to_push result)

  -- the items are sorted, and what is left of them is pushed
  push_items : List PushItem → ShopAdapter W → Action (Desk PushReport W) (Unit {0})
  unfolding push_selected select
  push_items items a d =
      let s = select items d.links in
      push_selected a s.to_push (record d {
        links = s.links;
        report = record d.report { processed = length items; skipped_unchanged = s.skipped };
      })

  -- `if release_lock: sync_state.mark_completed(cursor=cursor)`
  pub released : Desk PushReport W → Desk PushReport W
  unfolding mark_completed
  released d =
      if c.release_lock
      then record d { state = mark_completed (c.now d.outside) c.cursor none d.state }
      else d

  release : Action (Desk PushReport W) (Unit {0})
  unfolding released
  release d = (ok tt, released d)

  -- the two `except` blocks
  note_failure : Exn → Action (Desk PushReport W) (Unit {0})
  unfolding mark_failed record_auth_failure
  note_failure e d =
      let now = c.now d.outside in
      let auth = is_authentication_error e in
      let entry : ReportError = record {
        local_id = "";
        error = text_of e;
        code = auth_code auth;
        extra = [];
      } in
      (
        ok tt,
        record d {
          report = record d.report { errors = d.report.errors ++ entry ∷ [] };
          state = mark_failed now (text_of e) d.state;
          store = if auth then record_auth_failure now (text_of e) d.store else d.store;
        },
      )

  -- the `try` with its handlers
  pub push_locked : List PushItem → Action (Desk PushReport W) (Unit {0})
  unfolding note_failure push_items release resolve_adapter
  push_locked items =
      catch (do a ← outside_only resolve_adapter; push_items items a; release) note_failure

  -- the desk's report is the one that is returned
  unfoldable pub push : List PushItem → Desk PushReport W → Desk PushReport W
  unfolding push_locked acquire_lock
  push items d =
      let (taken, state) = acquire_lock (c.now d.outside) d.state in
      if taken
      then (push_locked items (record d { state = state; report = new_report })).1
      else record d { report = record new_report { locked = true } }
