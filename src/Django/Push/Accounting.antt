-- ===== src/Django/Push/Accounting.antt =====
-- A run of services/push.py with an adapter: what it books, and on what.
use bapp_connectors.Django.Push.Report.{PushItem, PushReport, new_report}
use bapp_connectors.Django.Desk.{Desk, is_held}
use bapp_connectors.Django.SyncState.{mark_running}
use bapp_connectors.Sync.Push.{push_products}
use bapp_connectors.Sync.Push.Accounting.{push_products-value}
use bapp_connectors.Base.{
  List, String, [], ap, arith, false, length, refl, some, ℕ, ◌+◌, ◌∙◌, ◌∷◌, ◌≡◌,
}
use bapp_connectors.Effect.{Returns, ok, resume, ◌>>=◌}
use bapp_connectors.Sync.Dto.{Product, SyncError, SyncResult, new_result}
use bapp_connectors.Sync.Adapter.{ShopAdapter, match_remote}
use bapp_connectors.Django.Links.{Links}
use bapp_connectors.Django.Push.{
  PushCall, absorb_result, call_engine, dtos, errors_by_id, match_link, push, push_items,
  push_locked, push_selected, release, released, resolve_adapter, select, settle_pushed,
}
use bapp_connectors.Base.Dict.{Dict}
use bapp_connectors.Django.Push.Lock.{push_free}
use bapp_connectors.Django.Push.Selection.{select_accounts}
use bapp_connectors.Django.Push.Settlement.{settle_accounts}

match_link-Returns {ℓ} :
    {W : Type ℓ} (links : Links) (p : Product) (w : W)
    → Returns (λ _. Unit) (match_remote (some (match_link links)) p w).0
unfolding match_remote match_link
match_link-Returns links p w = tt

module _ {ℓ} {W : Type ℓ} (c : PushCall W) (a : ShopAdapter W) where
  call_engine_lem :
      (to_push : List PushItem) (d : Desk PushReport W)
      → (r : SyncResult) × (w' : W) × (call_engine c a to_push d
          ≡ (ok r, record d { outside = w' }))
  unfolding call_engine
  call_engine_lem to_push d =
      let match_fn = match_link d.links in
      let (r, e) =
        push_products-value a c.sleep match_fn (match_link-Returns d.links) (dtos to_push)
          c.batch_size c.pause_seconds d.outside in
      let w' =
        (push_products a c.sleep (dtos to_push) (some match_fn) c.batch_size c.pause_seconds
          d.outside).1 in
      (r, w', ap (λ o. (o, record d { outside = w' })) e)

  push_selected_some :
      (item : PushItem) (items : List PushItem) (d : Desk PushReport W)
      → push_selected c a (item ∷ items) d
        ≡ (call_engine c a (item ∷ items) >>= absorb_result c (item ∷ items)) d
  unfolding push_selected
  push_selected_some item items d = refl

  absorb_result_lem :
      (to_push : List PushItem) (r : SyncResult) (d : Desk PushReport W)
      → let books =
          settle_pushed
            (c.now d.outside)
            r
            (errors_by_id [] r.errors)
            to_push
            (d.links, d.report) in
        absorb_result c to_push r d ≡ (ok tt, record d { links = books.0; report = books.1 })
  unfolding absorb_result
  absorb_result_lem to_push r d = refl

  module _ (d : Desk PushReport W) where
    -- A desk on which some items are booked under the result of an engine.
    abbrev pub Booked : List PushItem → Desk PushReport W → Type ℓ
    Booked to_push d' =
        (now : ℕ) × (result : SyncResult) × (errors : Dict String SyncError) × (d'.links
          ≡ (settle_pushed now result errors to_push (d.links, d.report)).0)
        × (d'.report ≡ (settle_pushed now result errors to_push (d.links, d.report)).1)
        × (d'.state ≡ d.state)
        × (d'.store ≡ d.store)
        × (length to_push ≡ 0 → d'.outside ≡ d.outside)

    push_selected_lem :
        (to_push : List PushItem)
        → (d' : Desk PushReport W) × (push_selected c a to_push d ≡ (ok tt, d')) × Booked to_push d'
    unfolding push_selected settle_pushed
    push_selected_lem [] = (d, refl, (0, new_result, [], refl, refl, refl, refl, λ h. refl))
    push_selected_lem (item ∷ items) =
        let (r, w', e) = call_engine_lem (item ∷ items) d in
        let errors = errors_by_id [] r.errors in
        let books = settle_pushed (c.now w') r errors (item ∷ items) (d.links, d.report) in
        let d' = record d { links = books.0; report = books.1; outside = w' } in
        (
          d',
          push_selected_some item items d
              ∙ ap (λ o. resume (absorb_result c (item ∷ items)) o) e
              ∙ absorb_result_lem (item ∷ items) r (record d { outside = w' }),
          (c.now w', r, errors, refl, refl, refl, refl, λ h. absurd (omega arith)),
        )

  -- where the caller gives the adapter
  module _ (given : c.adapter ≡ some a) (items : List PushItem) (d : Desk PushReport W) where
    abbrev pub start : Desk PushReport W
    start = record d { state = mark_running (c.now d.outside) d.state; report = new_report }

    abbrev pub sorted : Desk PushReport W
    sorted =
        let s = select items d.links in
        record start {
          links = s.links;
          report = record new_report { processed = length items; skipped_unchanged = s.skipped };
        }

    adapter_given : resolve_adapter c d.outside ≡ (ok a, d.outside)
    unfolding resolve_adapter
    adapter_given = rw given refl

    push_locked_given :
        (d' : Desk PushReport W)
        → push_selected c a (select items d.links).to_push sorted ≡ (ok tt, d')
        → push_locked c items start ≡ (ok tt, released c d')
    unfolding push_locked push_items release
    push_locked_given d' e = rw (adapter_given, ◌>>=◌, resume) (rw (e, ◌>>=◌, resume) refl)

    -- where nobody else holds the lock
    pub push_given :
        is_held (c.now d.outside) d.state ≡ false
        → (d' : Desk PushReport W) × (push c items d ≡ released c d')
          × Booked sorted (select items d.links).to_push d'
    push_given free =
        let (d', e, booked) = push_selected_lem sorted (select items d.links).to_push in
        (d', push_free c items d free ∙ ap (λ o. o.1) (push_locked_given d' e), booked)

    pub released_keeps :
        (x : Desk PushReport W)
        → ((released c x).report ≡ x.report)
          × ((released c x).links ≡ x.links)
          × ((released c x).store ≡ x.store)
          × ((released c x).outside ≡ x.outside)
    unfolding released
    released_keeps x = ground arith

    -- A push with an adapter at hand that gets the lock books every item exactly once, as created,
    -- updated, unchanged or failed, and whatever the adapter raises, an authentication error included,
    -- it leaves the connection alone.
    pub push_accounts :
        is_held (c.now d.outside) d.state ≡ false
        → let d' = push c items d in
          (d'.report.processed ≡ length items)
          × (d'.report.created + d'.report.updated + d'.report.skipped_unchanged + d'.report.failed
              ≡ length items)
          × (d'.store ≡ d.store)
    push_accounts free =
        let (x, e, (now, result, errors, links, report, state, store, quiet)) = push_given free in
        let s = select items d.links in
        let keeps = released_keeps x in
        let counts = settle_accounts now result errors s.to_push (sorted.links, sorted.report) in
        let all = select_accounts items d.links in
        rw e (
          rw (keeps.0 ∙ report)
            (omega (arith, counts), omega (arith, counts, all), keeps.2 ∙ store))
