-- ===== src/Django/Push/Again.antt =====
-- A push of services/push.py that is repeated.
use bapp_connectors.Django.Push.Report.{PushItem, PushReport, new_report}
use bapp_connectors.Django.Desk.{Desk, is_held, released-free}
use bapp_connectors.Django.Push.Lock.{LetGo, push-IsReleased}
use bapp_connectors.Sync.Adapter.{ShopAdapter}
use bapp_connectors.Django.Push.Accounting.{push_given, released_keeps, sorted}
use mathlib.Core.Path.{subst}
use bapp_connectors.Base.{
  All, Bool, Bool-cases, List, Option, String, [], ap, arith, false, inl, inr, length, none, refl,
  some, string_key, sym, true, truthy, ℕ, ◌&&◌, ◌==◌, ◌∙◌, ◌∷◌, ◌≡◌,
}
use bapp_connectors.Base.Dict.{Dict, get, get-put, same_refl}
use bapp_connectors.Sync.Dto.{SyncError, SyncResult}
use bapp_connectors.Django.Links.{Links, SyncLink, is_linked, mark_linked}
use bapp_connectors.Django.Push.{
  PushCall, Selected, ensure_link, is_unchanged, link_or_new, link_update, note_linked, push,
  select, settle_one, settle_pushed, skip_item, unchanged_link,
}
use bapp_connectors.Django.Push.Selection.{
  DistinctIds, has_id, select_empty, select_keeps, select_kept, select_skipped, to_push-DistinctIds,
  to_push_among,
}
use bapp_connectors.Django.Push.Settlement.{
  Books, counts_one, settle_accounts, settle_end, settle_keeps, settle_step,
}

-- The item's link is linked under the item's content hash.
abbrev current : PushItem → Option SyncLink → Bool
current item none = false
current item (some link) = is_linked link.status && link.content_hash == item.content_hash

abbrev IsCurrent : Links → PushItem → Type 0
IsCurrent links item = current item (get item.local_id links) ≡ true

-- The item's link has a remote id.
abbrev pub HasRemote : Links → PushItem → Type 0
HasRemote links item = truthy (link_or_new item.local_id (get item.local_id links)).remote_id ≡ true

module _ (now : ℕ) (result : SyncResult) where
  settled-IsCurrent :
      (item : PushItem) (s : Books) → IsCurrent (settle_one now result item none s).0 item
  unfolding settle_one note_linked mark_linked link_update
  settled-IsCurrent item (links, r) =
      rw (get-put item.local_id item.local_id _ links)
        (rw (same_refl item.local_id) (same_refl item.content_hash))

  module _ (errors : Dict String SyncError) where
    settle-IsCurrent :
        (items : List PushItem) (s : Books)
        → DistinctIds items
        → (settle_pushed now result errors items s).1.failed ≡ s.1.failed
        → All (IsCurrent (settle_pushed now result errors items s).0) items
    unfolding settle_pushed
    settle-IsCurrent [] s h f = tt
    settle-IsCurrent (item ∷ items) s h f =
        let o = get item.local_id errors in
        let s' = settle_one now result item o s in
        let one = counts_one now result item o s in
        let rest = settle_accounts now result errors items s' in
        let step = settle_step now result errors item items s in
        let same : (settle_pushed now result errors items s').1.failed ≡ s.1.failed =
          ap (λ x. x.1.failed) (sym step) ∙ f in
        let fine : o ≡ none = one.4 (omega (arith, one.3, rest.3, same)) in
        rw step (
          ap (λ l. current item l) (settle_keeps now result errors item.local_id items s' h.0)
              ∙ ap (λ x. current item (get item.local_id (settle_one now result item x s).0)) fine
              ∙ settled-IsCurrent item s,
          settle-IsCurrent items s' h.1 (omega (arith, one.3, rest.3, same)),
        )

unchanged-IsCurrent :
    (item : PushItem) (o : Option SyncLink)
    → unchanged_link item o ≡ true
    → (link : SyncLink) × (o ≡ some link) × (current item (some link) ≡ true)
unfolding unchanged_link is_unchanged
unchanged-IsCurrent item none h = cc
unchanged-IsCurrent item (some link) h = (link, refl, ground arith)

impossible : true ≡ false → ⊥
impossible e = cc

module _ (links' : Links) where
  -- The links of a run agree with the sorted ones on the items that were not pushed.
  abbrev Agrees : List PushItem → Selected → Type 0
  Agrees items s =
      (j : String)
      → has_id j items ≡ true
      → has_id j s.to_push ≡ false
      → get j links' ≡ get j s.links

  abbrev Covered : List PushItem → Selected → Type 0
  Covered items s = All (IsCurrent links') s.to_push × Agrees items s

  ids_differ :
      (j id : String) (items : List PushItem)
      → has_id id items ≡ false
      → has_id j items ≡ true
      → (id == j) ≡ false
  ids_differ j id items h inn = elim (Bool-cases (id == j)) [
    | inr other ↦ other
    | inl same ↦ absurd (
        impossible
          (sym inn ∙ ap (λ k. has_id k items) (sym ((string_key.same_iff id j).0 same)) ∙ h))
  ]

  covered :
      (items : List PushItem) (links : Links)
      → DistinctIds items
      → Covered items (select items links)
      → All (IsCurrent links') items
  covered [] links h c = tt
  covered (item ∷ items) links h c =
      elim (Bool-cases (unchanged_link item (get item.local_id links))) [
        | inl skip ↦
            let (pushed, agrees) =
              subst (Covered (item ∷ items)) (select_skipped item items links skip) c in
            let (link, q, good) = unchanged-IsCurrent item (get item.local_id links) skip in
            let stays = select_keeps item.local_id items links link q in
            let away = to_push_among item.local_id items links h.0 in
            (
              ap (current item)
                    (agrees item.local_id (rw (same_refl item.local_id) refl) away ∙ stays)
                  ∙ good,
              covered items links h.1 (pushed, λ j inn out. agrees j (ground arith) out),
            )
        | inr keep ↦
            let (pushed, agrees) =
              subst (Covered (item ∷ items)) (select_kept item items links keep) c in
            (
              pushed.0,
              covered items (ensure_link item.local_id links) h.1 (
                pushed.1,
                λ j inn out.
                    agrees j (ground arith)
                      (ground (arith, ids_differ j item.local_id items h.0 inn)),
              ),
            )
      ]

unchanged_of_current :
    (item : PushItem) (o : Option SyncLink)
    → current item o ≡ true
    → truthy (link_or_new item.local_id o).remote_id ≡ true
    → unchanged_link item o ≡ true
unfolding unchanged_link is_unchanged
unchanged_of_current item none h k = cc
unchanged_of_current item (some link) h k = ground arith

select_current :
    (items : List PushItem) (links : Links)
    → All (IsCurrent links) items
    → All (HasRemote links) items
    → select items links ≡ record { links = links; to_push = []; skipped = length items }
select_current [] links h k = select_empty links
select_current (item ∷ items) links h k =
    select_skipped item items links (unchanged_of_current item (get item.local_id links) h.0 k.0)
    ∙ ap skip_item (select_current items links h.1 k.1)
    ∙ ap (λ n. record { links = links; to_push = []; skipped = n }) (omega arith)

module _ {ℓ} {W : Type ℓ} (c : PushCall W) (a : ShopAdapter W) (given : c.adapter ≡ some a) where
  -- after a push that fails nowhere
  pushed-IsCurrent :
      (items : List PushItem) (d : Desk PushReport W)
      → is_held (c.now d.outside) d.state ≡ false
      → DistinctIds items
      → (push c items d).report.failed ≡ 0
      → All (IsCurrent (push c items d).links) items
  pushed-IsCurrent items d free h fine =
      let (x, e, (now, result, errors, links, report, state, store, quiet)) =
        push_given c a given items d free in
      let s = select items d.links in
      let keeps = released_keeps c a given items d x in
      let books : Books = (s.links, (sorted c a given items d).report) in
      let none_failed : (settle_pushed now result errors s.to_push books).1.failed ≡ 0 =
        ap (λ r. r.failed) (sym report ∙ sym keeps.0 ∙ ap (λ y. y.report) (sym e)) ∙ fine in
      subst (λ l. All (IsCurrent l) items) (sym (ap (λ y. y.links) e ∙ keeps.1 ∙ links))
        (covered (settle_pushed now result errors s.to_push books).0 items d.links h (
          settle-IsCurrent now result errors s.to_push books (to_push-DistinctIds items d.links h)
              none_failed,
          λ j inn out. settle_keeps now result errors j s.to_push books out,
        ))

  held_no_more :
      (items : List PushItem) (d : Desk PushReport W)
      → is_held (c.now d.outside) d.state ≡ false
      → c.release_lock ≡ true
      → is_held (c.now (push c items d).outside) (push c items d).state ≡ false
  held_no_more items d free rel = elim (push-IsReleased c items d) [
    | inl (held, _) ↦ absurd (impossible (sym held ∙ free))
    | inr (_, free_again) ↦
        released-free (c.now (push c items d).outside) (push c items d).state
          (subst (λ b. LetGo b (push c items d).state.status) rel free_again)
  ]

  -- A push that fails nowhere, with a given adapter, the lock free and to be released, and
  -- distinct local ids, is complete: where every item's link has a remote id afterwards, the same
  -- push again counts every item as unchanged and leaves the links, the connection and the outside
  -- world as they are.
  pub push_again :
      (items : List PushItem) (d : Desk PushReport W)
      → is_held (c.now d.outside) d.state ≡ false
      → c.release_lock ≡ true
      → DistinctIds items
      → (push c items d).report.failed ≡ 0
      → All (HasRemote (push c items d).links) items
      → let d1 = push c items d in
        let d2 = push c items d1 in
        (d2.report
          ≡ record new_report { processed = length items; skipped_unchanged = length items })
        × (d2.links ≡ d1.links)
        × (d2.store ≡ d1.store)
        × (d2.outside ≡ d1.outside)
  push_again items d free rel h fine remote =
      let d1 = push c items d in
      let same = select_current items d1.links (pushed-IsCurrent items d free h fine) remote in
      let (x, e, (now, result, errors, links, report, state, store, quiet)) =
        push_given c a given items d1 (held_no_more items d free rel) in
      let booked : Selected → Books = λ s.
        settle_pushed now result errors s.to_push (
          s.links,
          record new_report { processed = length items; skipped_unchanged = s.skipped },
        ) in
      let idle = ap booked same ∙ settle_end now result errors _ in
      let keeps = released_keeps c a given items d1 x in
      (
        ap (λ y. y.report) e ∙ keeps.0 ∙ report ∙ ap (λ b. b.1) idle,
        ap (λ y. y.links) e ∙ keeps.1 ∙ links ∙ ap (λ b. b.0) idle,
        ap (λ y. y.store) e ∙ keeps.2 ∙ store,
        ap (λ y. y.outside) e ∙ keeps.3 ∙ quiet (ap (λ s. length s.to_push) same),
      )
