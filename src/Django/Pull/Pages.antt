-- ===== src/Django/Pull/Pages.antt =====
-- The loops of services/pull.py. The loop over the pages takes fuel, one for each page; `none` means
-- that it ran out.
pub mod Accounting
pub mod Ending
pub mod Items
use bapp_connectors.Base.{
  Bool, List, Option, String, [], false, if◌then◌else◌, leb, none, not, some, suc, true, truthy,
  zero, ℕ, ◌&&◌, ◌++◌, ◌+◌, ◌==◌, ◌||◌, ◌∷◌, string_key,
}
use bapp_connectors.Base.Dict.{get, put}
use bapp_connectors.Errors.{Exn, is_authentication_error, text_of}
use bapp_connectors.Effect.{Action, catch, ok, pure, ◌>>=◌, ◌>>◌}
use bapp_connectors.Sync.Dto.{Page, Product}
use bapp_connectors.Sync.Adapter.{present}
use bapp_connectors.Django.Connection.{record_auth_failure}
use bapp_connectors.Django.SyncState.{SyncState, mark_completed, mark_failed, reset_cursor}
use bapp_connectors.Django.Links.{Links, SyncLink}
use bapp_connectors.Django.Desk.{Desk, acquire_lock, outside_only}
use bapp_connectors.Django.Pull.{
  Objects, PageDesk, PullDecision, PullError, PullReport, apply_decision, decided, new_report,
  remote_modified,
}

-- The adapter of a pull. The second method is there where `supports_modified_since` is set.
pub record PullSource {ℓ} (W : Type ℓ) : Type ℓ where
  pub get_products : Option String → Action W Page
  pub get_products_since : Option (Option String → Option ℕ → Action W Page)

-- What a pull is called with.
pub record PullCall {ℓ} (W : Type ℓ) : Type ℓ where
  -- `ConnectionService.get_adapter(connection)`, and the adapter where the caller has one
  pub get_adapter : Action W (PullSource W)
  pub adapter : Option (PullSource W)
  pub on_item : Product → Option SyncLink → Action W PullDecision
  -- what the database raises at a second link for a local id
  pub duplicate : Exn
  pub full : Bool
  pub max_pages : Option ℕ
  pub now : W → ℕ

abbrev is_among : String → List Product → Bool
is_among remote_id [] = false
is_among remote_id (product ∷ products) =
    product.product_id == remote_id || is_among remote_id products

-- the links that have a remote id of the page; a later one takes the place of an earlier one
pub by_remote : List Product → Links → Objects → Objects
by_remote products [] objects = objects
by_remote products ((_, link) ∷ links) objects =
    by_remote products links
      (if is_among link.remote_id products then put link.remote_id link objects else objects)

unfoldable pub is_echo : String → Option SyncLink → Bool
is_echo modified none = false
is_echo modified (some link) = truthy modified && link.remote_hash == modified

-- `max_pages is not None and report.pages >= max_pages`
pub reached : Option ℕ → ℕ → Bool
reached none pages = false
reached (some max_pages) pages = leb max_pages pages

-- the state at the end of a run that started at a time: with a cursor to go on from it is kept
pub finish_state : ℕ → ℕ → Option String → SyncState → SyncState
unfolding mark_completed reset_cursor
finish_state now started none s = mark_completed now "" (some started) (reset_cursor now s)
finish_state now started (some cursor) s =
    if truthy cursor
    then mark_completed now cursor s.last_sync_at s
    else mark_completed now "" (some started) (reset_cursor now s)

module _ {ℓ} {W : Type ℓ} (c : PullCall W) where
  pub count_echo : PageDesk W → PageDesk W
  count_echo (objects, d) =
      (objects, record d { report = record d.report { echoes = d.report.echoes + 1 } })

  -- one product of a page: an echo of a push is left alone, else the callback decides
  pub pull_one : Product → Action (PageDesk W) (Unit {0})
  unfolding apply_decision count_echo
  pull_one product (objects, d) =
      let link = get product.product_id objects in
      let (answer, w') = c.on_item product link d.outside in
      if is_echo (remote_modified product) link
      then (ok tt, count_echo (objects, d))
      else apply_decision c.duplicate (c.now w') product link (decided answer)
          (objects, record d { outside = w' })

  pub pull_items : List Product → Action (PageDesk W) (Unit {0})
  unfolding pull_one
  pull_items [] = pure tt
  pull_items (product ∷ products) = do pull_one product; pull_items products

  -- a page with the link objects that stand for it
  pub handle_page : List Product → Action (Desk PullReport W) (Unit {0})
  unfolding pull_items by_remote
  handle_page products d =
      let counted = record d { report = record d.report { pages = d.report.pages + 1 } } in
      let (o, s) = pull_items products (by_remote products d.links [], counted) in (o, s.1)

  pub fetch : PullSource W → Option ℕ → Option String → Action W Page
  fetch source since cursor = elim source.get_products_since [
    | none ↦ source.get_products cursor
    | some get_products_since ↦ get_products_since cursor since
  ]

  -- the loop over the pages: where it stops, the cursor to go on from
  pub pull_pages :
      ℕ
      → PullSource W
      → Option ℕ
      → Option String
      → Action (Desk PullReport W) (Option (Option String))
  unfolding handle_page reached fetch
  pull_pages zero source since cursor = pure none
  pull_pages (suc fuel) source since cursor = do
    page ← outside_only (fetch source since cursor)
    handle_page page.items
    λ d.
        let rest = pull_pages fuel source since page.cursor d in
        if not page.has_more
        then (ok (some none), d)
        else if reached c.max_pages d.report.pages
        then (ok (some page.cursor), d)
        else rest

  pub finish : ℕ → Option (Option String) → Action (Desk PullReport W) (Option (Unit {0}))
  unfolding finish_state
  finish started none d = (ok none, d)
  finish started (some cursor) d =
      (ok (some tt), record d { state = finish_state (c.now d.outside) started cursor d.state })

  pub resolve_source : Action W (PullSource W)
  resolve_source = elim c.adapter [ none ↦ c.get_adapter | some a ↦ pure a ]

  -- the two `except` blocks
  pub note_failure : Exn → Action (Desk PullReport W) (Option (Unit {0}))
  unfolding mark_failed record_auth_failure
  note_failure e d =
      let now = c.now d.outside in
      let entry : PullError = record { remote_id = ""; error = text_of e } in
      (
        ok (some tt),
        record d {
          report = record d.report { errors = d.report.errors ++ entry ∷ [] };
          state = mark_failed now (text_of e) d.state;
          store =
              if is_authentication_error e
              then record_auth_failure now (text_of e) d.store
              else d.store;
        },
      )

  -- `None if full else sync_state.last_sync_at`
  pub since_of : SyncState → Option ℕ
  since_of s = if c.full then none else s.last_sync_at

  pull_run : ℕ → ℕ → Action (Desk PullReport W) (Option (Unit {0}))
  unfolding pull_pages finish resolve_source since_of
  pull_run fuel started = do
    source ← outside_only resolve_source
    λ d.
        (pull_pages fuel source (since_of d.state) (present (some d.state.cursor))
            >>= finish started)
          d

  -- the desk's report is the one that is returned
  unfoldable pub pull : ℕ → Action (Desk PullReport W) (Option (Unit {0}))
  unfolding pull_run note_failure acquire_lock
  pull fuel d =
      let now = c.now d.outside in
      let (taken, state) = acquire_lock now d.state in
      if taken
      then catch (pull_run fuel now) note_failure (record d { state = state; report = new_report })
      else (ok (some tt), record d { report = record new_report { locked = true } })
