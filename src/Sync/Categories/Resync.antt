-- ===== src/Sync/Categories/Resync.antt =====
-- A category sync that is repeated with the mappings that it has produced.
use mathlib.Core.Path.{subst}
use bapp_connectors.Base.{
  All, Bool, List, Option, String, [], ap, arith, false, none, not, refl, some, true, ◌++◌, ◌∷◌,
  ◌≡◌, string_key,
}
use bapp_connectors.Base.Dict.{Dict, same_refl, contains, get, get-put, put}
use bapp_connectors.Effect.{
  Ensures, Ensures-bind, Ensures-bind_via, Ensures-if, Ensures-ok, Ensures-weaken, ok, pure, resume,
  ◌>>=◌, ◌>>◌,
}
use bapp_connectors.Sync.Dto.{CategoryMapping, CategorySyncResult, ProductCategory}
use bapp_connectors.Sync.Adapter.{CategoryManagement, ShopAdapter}
use bapp_connectors.Sync.Categories.{
  Progress, add_created, add_updated, create_missing, local_id_for, remote_parent, sync_categories,
  sync_from, sync_managed, sync_one, unchanged, update_mapped,
}

-- The mappings of a caller after it has stored the created ones.
abbrev pub extend : Dict String String → List CategoryMapping → Dict String String
extend existing [] = existing
extend existing (c ∷ created) = extend (put c.local_id c.remote_id existing) created

extend-snoc :
    (existing : Dict String String) (created : List CategoryMapping) (c : CategoryMapping)
    → extend existing (created ++ c ∷ []) ≡ put c.local_id c.remote_id (extend existing created)
extend-snoc existing [] c = refl
extend-snoc existing (d ∷ created) c = extend-snoc (put d.local_id d.remote_id existing) created c

contains-put_self : (k v : String) (d : Dict String String) → contains k (put k v d) ≡ true
contains-put_self k v d = ground (arith, get-put k k v d, same_refl k)

contains-put_mono :
    (k j v : String) (d : Dict String String) → contains j d ≡ true → contains j (put k v d) ≡ true
contains-put_mono k j v d h = ground (arith, get-put k j v d)

module _ (start : Dict String String) where
  -- What a round keeps: the mappings are the first ones and those created so far, none is lost.
  record Grows (s s' : Progress) : Type 0 where
    stored :
        s.existing ≡ extend start s.result.created → s'.existing ≡ extend start s'.result.created
    kept : (j : String) → contains j s.existing ≡ true → contains j s'.existing ≡ true

  Grows-refl : (s : Progress) → Grows s s
  Grows-refl s = record { stored = λ h. h; kept = λ j h. h }

  Grows-trans : (s t u : Progress) → Grows s t → Grows t u → Grows s u
  Grows-trans s t u g h = record {
    stored = λ e. h.stored (g.stored e);
    kept = λ j e. h.kept j (g.kept j e);
  }

  abbrev Covers : ProductCategory → Progress → Progress → Type 0
  Covers category s s' = Grows s s' × (contains category.category_id s'.existing ≡ true)

  add_created-Covers :
      (c : ProductCategory) (s : Progress) (created : ProductCategory)
      → Covers c s (add_created c s created)
  unfolding add_created
  add_created-Covers c s created = (
    record {
      stored = λ h.
          rw (extend-snoc start s.result.created _)
            (ap (λ d. put c.category_id created.category_id d) h);
      kept = λ j h. contains-put_mono c.category_id j created.category_id s.existing h;
    },
    contains-put_self c.category_id created.category_id s.existing,
  )

  module _ {ℓ} {W : Type ℓ} (m : CategoryManagement W) (update_existing : Bool)
      (remote : Dict String ProductCategory) where
    create_missing-Covers :
        (s : Progress) (c : ProductCategory) (w : W)
        → Ensures (Covers c s) (create_missing m s c w).0
    unfolding create_missing
    create_missing-Covers s c w =
        Ensures-bind (Covers c s) (λ created. pure (add_created c s created))
          (m.create_category c.name (remote_parent s.existing c)
            (local_id_for m.accepts_local_category_id c))
          w (λ created w'. add_created-Covers c s created)

    add_updated-Covers :
        (s : Progress) (c : ProductCategory)
        → contains c.category_id s.existing ≡ true
        → Covers c s (add_updated c s)
    unfolding add_updated
    add_updated-Covers s c h = (record { stored = λ e. e; kept = λ j e. e }, h)

    update_mapped-Covers :
        (s : Progress) (c : ProductCategory) (id : String) (w : W)
        → contains c.category_id s.existing ≡ true
        → Ensures (Covers c s) (update_mapped m remote s c id w).0
    unfolding update_mapped
    update_mapped-Covers s c id w h =
        let parent = remote_parent s.existing c in
        let change : ProductCategory = record {
          category_id = id;
          name = c.name;
          parent_id = parent;
          extra = [];
        } in
        Ensures-if (Covers c s) (unchanged (get id remote) c parent) (pure s)
          (do m.update_category change; pure (add_updated c s)) w (Grows-refl s, h)
          (Ensures-bind (Covers c s) (λ _. pure (add_updated c s)) (m.update_category change) w
            (λ _ w'. add_updated-Covers s c h))

    sync_one-Covers :
        (s : Progress) (c : ProductCategory) (o : Option String) (w : W)
        → get c.category_id s.existing ≡ o
        → Ensures (Covers c s) (sync_one m update_existing remote s c o w).0
    unfolding sync_one
    sync_one-Covers s c none w h = create_missing-Covers s c w
    sync_one-Covers s c (some id) w h =
        let there : contains c.category_id s.existing ≡ true = ground arith in
        Ensures-if (Covers c s) (not update_existing) (pure s) (update_mapped m remote s c id) w
          (Grows-refl s, there) (update_mapped-Covers s c id w there)

    abbrev AllCovered : List ProductCategory → Progress → Progress → Type 0
    AllCovered cs s s' = Grows s s' × All (λ c. contains c.category_id s'.existing ≡ true) cs

    sync_from-AllCovered :
        (cs : List ProductCategory) (s : Progress) (w : W)
        → Ensures (AllCovered cs s) (sync_from m update_existing remote cs s w).0
    unfolding sync_from
    sync_from-AllCovered [] s w = (Grows-refl s, tt)
    sync_from-AllCovered (c ∷ cs) s w =
        Ensures-bind_via (AllCovered (c ∷ cs) s) (sync_from m update_existing remote cs)
          (Covers c s) (sync_one m update_existing remote s c (get c.category_id s.existing)) w
          (sync_one-Covers s c (get c.category_id s.existing) w refl)
          (λ s' w' first.
            Ensures-weaken (AllCovered cs s') (AllCovered (c ∷ cs) s) _
              (λ t later.
                (Grows-trans s s' t first.0 later.0, (later.0.kept c.category_id first.1, later.1)))
              (sync_from-AllCovered cs s' w'))

module _ {ℓ} {W : Type ℓ} (m : CategoryManagement W) (remote : Dict String ProductCategory) where
  sync_one_covered :
      (s : Progress) (c : ProductCategory) (o : Option String) (w : W)
      → (elim o [ none ↦ false | some _ ↦ true ]) ≡ true
      → sync_one m false remote s c o w ≡ (ok s, w)
  unfolding sync_one
  sync_one_covered s c none w h = cc
  sync_one_covered s c (some id) w h = refl

  sync_from_covered :
      (cs : List ProductCategory) (s : Progress) (w : W)
      → All (λ c. contains c.category_id s.existing ≡ true) cs
      → sync_from m false remote cs s w ≡ (ok s, w)
  unfolding sync_from
  sync_from_covered [] s w h = refl
  sync_from_covered (c ∷ cs) s w h =
      rw (sync_one_covered s c (get c.category_id s.existing) w h.0, ◌>>=◌, resume)
        (sync_from_covered cs s w h.1)

abbrev pub nothing_done : CategorySyncResult
nothing_done = record { created = []; updated = [] }

abbrev begun : Dict String String → Progress
begun existing = record { existing = existing; result = nothing_done }

-- Every category is mapped once the caller has stored what a result has created.
abbrev Mapped : List ProductCategory → Dict String String → CategorySyncResult → Type 0
Mapped categories existing r =
    All (λ c. contains c.category_id (extend existing r.created) ≡ true) categories

module _ {ℓ} {W : Type ℓ} (categories : List ProductCategory) (existing : Dict String String) where
  sync_managed-Mapped :
      (o : Option (CategoryManagement W)) (update_existing : Bool)
      (remote : Dict String ProductCategory) (w : W)
      → Ensures
          (Mapped categories existing)
          (sync_managed o categories existing update_existing remote w).0
  unfolding sync_managed
  sync_managed-Mapped none update_existing remote w = tt
  sync_managed-Mapped (some m) update_existing remote w =
      Ensures-bind_via (Mapped categories existing) (λ s. pure s.result)
        (AllCovered existing m update_existing remote categories (begun existing))
        (sync_from m update_existing remote categories (begun existing)) w
        (sync_from-AllCovered existing m update_existing remote categories (begun existing) w)
        (λ s w' h.
          subst (λ (d : Dict String String). All (λ c. contains c.category_id d ≡ true) categories)
            (h.0.stored refl) h.1)

  sync_managed_again :
      (o : Option (CategoryManagement W)) (update_existing : Bool)
      (remote later : Dict String ProductCategory) (w w' w'' : W) (r : CategorySyncResult)
      → sync_managed o categories existing update_existing remote w ≡ (ok r, w')
      → sync_managed o categories (extend existing r.created) false later w''
        ≡ (ok nothing_done, w'')
  unfolding sync_managed
  sync_managed_again none update_existing remote later w w' w'' r h = cc
  sync_managed_again (some m) update_existing remote later w w' w'' r h =
      let first = sync_managed (some m) categories existing update_existing remote w in
      let covered : Mapped categories existing r =
        Ensures-ok (Mapped categories existing) first.0 r (ap (λ x. x.0) h)
          (sync_managed-Mapped (some m) update_existing remote w) in
      rw
        (
          sync_from_covered m later categories (begun (extend existing r.created)) w'' covered,
          ◌>>=◌,
          resume,
        )
        refl

-- A category sync that has returned leaves nothing to create: when the caller has stored the created
-- mappings and asks for no updates, a second sync of the same categories does nothing at all.
pub resync_idle {ℓ} :
    {W : Type ℓ} (a : ShopAdapter W) (categories : List ProductCategory)
    (existing : Dict String String) (update_existing : Bool)
    (remote later : Dict String ProductCategory) (w w' w'' : W) (r : CategorySyncResult)
    → sync_categories a categories existing update_existing remote w ≡ (ok r, w')
    → sync_categories a categories (extend existing r.created) false later w''
      ≡ (ok nothing_done, w'')
unfolding sync_categories
resync_idle a categories existing update_existing remote later w w' w'' r =
    sync_managed_again categories existing a.category_management update_existing remote later w w'
      w'' r
