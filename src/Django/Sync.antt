-- ===== src/Django/Sync.antt =====
-- packages/django/src/django_bapp_connectors/services/sync.py. The adapter, its methods and the
-- caller's fetch function act on a state `W` of the outside world; the clock is a function of it.
pub mod Endings
use bapp_connectors.Base.{
  Bool, List, Option, String, [], false, if◌then◌else◌, length, none, some, true, truthy, ℕ, ◌++◌,
  ◌<>◌, ◌∷◌,
}
use bapp_connectors.Django.SyncState.{
  SyncState, mark_completed, mark_failed, mark_running, reset_cursor,
}
use bapp_connectors.Errors.{Exn, exception, text_of}
use bapp_connectors.Effect.{Action, Outcome, catch, ok, throw, ◌>>=◌, ◌>>◌}

-- `PaginatedResult`
pub record Paginated {ℓ} (I : Type ℓ) : Type ℓ where
  pub items : List I
  pub cursor : Option String
  pub has_more : Bool

pub record SyncResult : Type 0 where
  pub items_fetched : ℕ
  pub items_processed : ℕ
  pub cursor : String
  pub has_more : Bool
  pub errors : List String

-- the `sync_completed` signal
pub record SyncCompleted : Type 0 where
  pub sync_result : SyncResult
  pub is_full_resync : Bool

pub record World {ℓ} (W : Type ℓ) : Type ℓ where
  pub state : SyncState
  pub sent : List SyncCompleted
  pub outside : W

abbrev keep_outside {ℓ} : {W X : Type ℓ} → World W → Outcome X × W → Outcome X × World W
keep_outside s (o, w) = (o, record s { outside = w })

-- What acts on the outside world alone.
pub within {ℓ} : {W X : Type ℓ} → Action W X → Action (World W) X
within m s = keep_outside s (m s.outside)

abbrev text_or_empty : Option String → String
text_or_empty none = ""
text_or_empty (some s) = s

abbrev none_if_empty : String → Option String
none_if_empty s = if truthy s then some s else none

-- An adapter by its `get_<resource>` methods, the connection by its adapter.
pub record Source {ℓ} (W A I : Type ℓ) : Type ℓ where
  pub get_adapter : Action W A
  pub method : A → String → Option (Option String → Action W (Paginated I))
  pub now : W → ℕ

module _ {ℓ} {W A I : Type ℓ} (c : Source W A I) where
  call_method :
      Option (Option String → Action W (Paginated I)) → String → String → Action W (Paginated I)
  call_method none resource_type cursor =
      throw (exception ("Adapter has no method 'get_" <> resource_type <> "'"))
  call_method (some method) resource_type cursor = method (none_if_empty cursor)

  fetch :
      Option (A → String → Action W (Paginated I)) → String → String → A → Action W (Paginated I)
  unfolding call_method
  fetch none resource_type cursor adapter =
      call_method (c.method adapter resource_type) resource_type cursor
  fetch (some fetch_fn) resource_type cursor adapter = fetch_fn adapter cursor

  result_of : Paginated I → SyncResult
  result_of page = record {
    items_fetched = length page.items;
    items_processed = 0;
    cursor = text_or_empty page.cursor;
    has_more = page.has_more;
    errors = [];
  }

  complete : Bool → Paginated I → Action (World W) SyncResult
  unfolding result_of mark_completed
  complete full page s =
      let result = result_of page in
      (
        ok result,
        record s {
          state = mark_completed (c.now s.outside) result.cursor (some (c.now s.outside)) s.state;
          sent = s.sent ++ record { sync_result = result; is_full_resync = full } ∷ [];
        },
      )

  note_failure : Exn → Action (World W) SyncResult
  unfolding mark_failed
  note_failure e s = (
    ok (record {
      items_fetched = 0;
      items_processed = 0;
      cursor = "";
      has_more = false;
      errors = text_of e ∷ [];
    }),
    record s { state = mark_failed (c.now s.outside) (text_of e) s.state },
  )

  unfoldable pub incremental_sync :
      String → Option (A → String → Action W (Paginated I)) → Bool → Action (World W) SyncResult
  unfolding mark_running within fetch complete note_failure
  incremental_sync resource_type fetch_fn full s =
      catch
        (do
          adapter ← within c.get_adapter
          page ← within (fetch fetch_fn resource_type s.state.cursor adapter)
          complete full page)
        note_failure (record s { state = mark_running (c.now s.outside) s.state })

  -- the cursor is reset, and then the sync runs as a full one
  unfoldable pub full_resync :
      String → Option (A → String → Action W (Paginated I)) → Action (World W) SyncResult
  unfolding incremental_sync reset_cursor
  full_resync resource_type fetch_fn s =
      incremental_sync resource_type fetch_fn true
        (record s { state = reset_cursor (c.now s.outside) s.state })
