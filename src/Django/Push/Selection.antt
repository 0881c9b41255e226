-- ===== src/Django/Push/Selection.antt =====
-- How services/push.py sorts its items into unchanged ones and ones to push.
use bapp_connectors.Django.Push.Report.{PushItem}
use bapp_connectors.Base.{
  Bool, Bool-cases, List, Option-cases, String, [], ap, arith, false, inl, inr, length, none, refl,
  some, string_key, sym, true, ◌+◌, ◌==◌, ◌||◌, ◌∙◌, ◌∷◌, ◌≡◌,
}
use bapp_connectors.Base.Dict.{get, get-put, put}
use bapp_connectors.Django.Links.{Links, SyncLink, new_link}
use bapp_connectors.Django.Push.{ensure_link, select, unchanged_link}

-- whether an item with the local id is among some items
abbrev pub has_id : String → List PushItem → Bool
has_id id [] = false
has_id id (item ∷ items) = item.local_id == id || has_id id items

abbrev pub DistinctIds : List PushItem → Type 0
DistinctIds [] = Unit
DistinctIds (item ∷ items) = (has_id item.local_id items ≡ false) × DistinctIds items

pub select_skipped :
    (item : PushItem) (items : List PushItem) (links : Links)
    → unchanged_link item (get item.local_id links) ≡ true
    → select (item ∷ items) links
      ≡ (let s = select items links in record s { skipped = s.skipped + 1 })
unfolding select
select_skipped item items links h = rw h refl

pub select_kept :
    (item : PushItem) (items : List PushItem) (links : Links)
    → unchanged_link item (get item.local_id links) ≡ false
    → select (item ∷ items) links ≡ (
        let s = select items (ensure_link item.local_id links) in
        record s { to_push = item ∷ s.to_push })
unfolding select
select_kept item items links h = rw h refl

pub select_empty :
    (links : Links) → select [] links ≡ record { links = links; to_push = []; skipped = 0 }
unfolding select
select_empty links = refl

-- every item is skipped or pushed
pub select_accounts :
    (items : List PushItem) (links : Links)
    → length (select items links).to_push + (select items links).skipped ≡ length items
select_accounts [] links = rw (select_empty links) refl
select_accounts (item ∷ items) links =
    elim (Bool-cases (unchanged_link item (get item.local_id links))) [
      | inl skip ↦
          rw (select_skipped item items links skip) (omega (arith, select_accounts items links))
      | inr keep ↦
          rw (select_kept item items links keep)
            (omega (arith, select_accounts items (ensure_link item.local_id links)))
    ]

ensure_old :
    (id : String) (links : Links) (old : SyncLink)
    → get id links ≡ some old
    → ensure_link id links ≡ links
unfolding ensure_link
ensure_old id links old q = rw (q, ensure_link) refl

ensure_new :
    (id : String) (links : Links)
    → get id links ≡ none
    → ensure_link id links ≡ put id (new_link id "") links
unfolding ensure_link
ensure_new id links q = rw (q, ensure_link) refl

get-put_other :
    (j id : String) (links : Links) (link fresh : SyncLink)
    → get id links ≡ none
    → get j links ≡ some link
    → get j (put id fresh links) ≡ some link
get-put_other j id links link fresh q h = elim (Bool-cases (id == j)) [
  | inl same ↦
      absurd (
        some_not_none (sym h ∙ ap (λ k. get k links) (sym ((string_key.same_iff id j).0 same)) ∙ q))
  | inr other ↦ get-put id j fresh links ∙ rw other h
]
  where
    some_not_none : some link ≡ none → ⊥
    some_not_none e = cc

get-ensure_link :
    (j id : String) (links : Links) (link : SyncLink)
    → get j links ≡ some link
    → get j (ensure_link id links) ≡ some link
get-ensure_link j id links link h = elim (Option-cases (get id links)) [
  | inr (old, q) ↦ rw (ensure_old id links old q) h
  | inl q ↦ rw (ensure_new id links q) (get-put_other j id links link (new_link id "") q h)
]

pub select_keeps :
    (j : String) (items : List PushItem) (links : Links) (link : SyncLink)
    → get j links ≡ some link
    → get j (select items links).links ≡ some link
select_keeps j [] links link h = rw (select_empty links) h
select_keeps j (item ∷ items) links link h =
    elim (Bool-cases (unchanged_link item (get item.local_id links))) [
      | inl skip ↦ rw (select_skipped item items links skip) (select_keeps j items links link h)
      | inr keep ↦ rw (select_kept item items links keep) (
          select_keeps j items (ensure_link item.local_id links) link
            (get-ensure_link j item.local_id links link h))
    ]

-- what is left to push is among the items
pub to_push_among :
    (j : String) (items : List PushItem) (links : Links)
    → has_id j items ≡ false
    → has_id j (select items links).to_push ≡ false
to_push_among j [] links h = rw (select_empty links) refl
to_push_among j (item ∷ items) links h =
    elim (Bool-cases (unchanged_link item (get item.local_id links))) [
      | inl skip ↦
          rw (select_skipped item items links skip) (to_push_among j items links (ground arith))
      | inr keep ↦
          rw (select_kept item items links keep)
            (ground (arith, to_push_among j items (ensure_link item.local_id links) (ground arith)))
    ]

pub to_push-DistinctIds :
    (items : List PushItem) (links : Links)
    → DistinctIds items
    → DistinctIds (select items links).to_push
to_push-DistinctIds [] links h = rw (select_empty links) tt
to_push-DistinctIds (item ∷ items) links h =
    elim (Bool-cases (unchanged_link item (get item.local_id links))) [
      | inl skip ↦ rw (select_skipped item items links skip) (to_push-DistinctIds items links h.1)
      | inr keep ↦ rw (select_kept item items links keep) (
        to_push_among item.local_id items (ensure_link item.local_id links) h.0,
        to_push-DistinctIds items (ensure_link item.local_id links) h.1,
      )
    ]
