-- ===== src/Django/Push/Settlement.antt =====
-- How services/push.py books the results of a push on the links and in the report.
use bapp_connectors.Django.Push.Report.{PushItem, PushReport, count_link}
use bapp_connectors.Base.{
  Bool, List, Option, String, [], arith, false, length, none, not, refl, some, true, truthy, ℕ, ◌+◌,
  ◌==◌, ◌∙◌, ◌∷◌, ◌≡◌, ◌≤◌, string_key,
}
use bapp_connectors.Base.Dict.{Dict, get, get-put}
use bapp_connectors.Sync.Dto.{SyncError, SyncResult}
use bapp_connectors.Django.Links.{Links}
use bapp_connectors.Django.Push.{link_or_new, note_error, note_linked, settle_one, settle_pushed}
use bapp_connectors.Django.Push.Selection.{has_id}

abbrev pub Books : Type 0
Books = Links × PushReport

pub settle_step :
    (now : ℕ) (result : SyncResult) (errors : Dict String SyncError) (item : PushItem)
    (items : List PushItem) (s : Books)
    → settle_pushed now result errors (item ∷ items) s
      ≡ settle_pushed now result errors items
          (settle_one now result item (get item.local_id errors) s)
unfolding settle_pushed
settle_step now result errors item items s = refl

pub settle_end :
    (now : ℕ) (result : SyncResult) (errors : Dict String SyncError) (s : Books)
    → settle_pushed now result errors [] s ≡ s
unfolding settle_pushed
settle_end now result errors s = refl

module _ (now : ℕ) (result : SyncResult) where
  get-settle_one :
      (j : String) (item : PushItem) (o : Option SyncError) (s : Books)
      → (item.local_id == j) ≡ false
      → get j (settle_one now result item o s).0 ≡ get j s.0
  unfolding settle_one note_error note_linked
  get-settle_one j item (some e) (links, r) h = get-put item.local_id j _ links ∙ rw h refl
  get-settle_one j item none (links, r) h = get-put item.local_id j _ links ∙ rw h refl

  -- one item moves one counter by one, and only an error counts as a failure
  pub counts_one :
      (item : PushItem) (o : Option SyncError) (s : Books)
      → let r = s.1 in
        let t = (settle_one now result item o s).1 in
        (t.created + t.updated + t.failed ≡ r.created + r.updated + r.failed + 1)
        × (t.skipped_unchanged ≡ r.skipped_unchanged)
        × (t.processed ≡ r.processed)
        × (r.failed ≤ t.failed)
        × ((t.failed ≡ r.failed) → o ≡ none)
  unfolding settle_one note_error note_linked
  counts_one item (some e) (links, r) =
      (omega arith, omega arith, omega arith, omega arith, λ h. absurd (omega arith))
  counts_one item none (links, r) =
      by_case (truthy (link_or_new item.local_id (get item.local_id links)).remote_id)
    where
      by_case :
          (b : Bool)
          → let t = count_link (not b) r in
            (t.created + t.updated + t.failed ≡ r.created + r.updated + r.failed + 1)
            × (t.skipped_unchanged ≡ r.skipped_unchanged)
            × (t.processed ≡ r.processed)
            × (r.failed ≤ t.failed)
            × ((t.failed ≡ r.failed) → ◌≡◌ {A = Option SyncError} none none)
      by_case true = (omega arith, refl, refl, omega arith, λ h. refl)
      by_case false = (omega arith, refl, refl, omega arith, λ h. refl)

  module _ (errors : Dict String SyncError) where
    pub settle_accounts :
        (items : List PushItem) (s : Books)
        → let r = s.1 in
          let t = (settle_pushed now result errors items s).1 in
          (t.created + t.updated + t.failed ≡ r.created + r.updated + r.failed + length items)
          × (t.skipped_unchanged ≡ r.skipped_unchanged)
          × (t.processed ≡ r.processed)
          × (r.failed ≤ t.failed)
    settle_accounts [] s =
        rw (settle_end now result errors s) (omega arith, refl, refl, omega arith)
    settle_accounts (item ∷ items) s =
        let o = get item.local_id errors in
        let one = counts_one item o s in
        let rest = settle_accounts items (settle_one now result item o s) in
        rw (settle_step now result errors item items s) (
          omega (arith, one.0, rest.0),
          omega (arith, one.1, rest.1),
          omega (arith, one.2, rest.2),
          omega (arith, one.3, rest.3),
        )

    pub settle_keeps :
        (j : String) (items : List PushItem) (s : Books)
        → has_id j items ≡ false
        → get j (settle_pushed now result errors items s).0 ≡ get j s.0
    settle_keeps j [] s h = rw (settle_end now result errors s) refl
    settle_keeps j (item ∷ items) s h =
        let o = get item.local_id errors in
        rw (settle_step now result errors item items s) (
          settle_keeps j items (settle_one now result item o s) (ground arith)
          ∙ get-settle_one j item o s (ground arith))
