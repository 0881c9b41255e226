-- ===== src/Sync/Categories.antt =====
-- `pull_categories`, `sync_categories` and `push_categories` of core/sync/engine.py.
pub mod Resync
use bapp_connectors.Base.{
  Bool, List, Option, String, [], false, if◌then◌else◌, none, not, some, true, ◌&&◌, ◌++◌, ◌==◌,
  ◌∷◌, string_key,
}
use bapp_connectors.Base.Dict.{Dict, get, put}
use bapp_connectors.Errors.{Exn, exception}
use bapp_connectors.Effect.{Action, pure, throw, ◌>>=◌, ◌>>◌}
use bapp_connectors.Sync.Dto.{CategoryMapping, CategorySyncResult, ProductCategory}
use bapp_connectors.Sync.Adapter.{CategoryManagement, ShopAdapter, present}

abbrev unsupported : Exn
unsupported = exception "adapter does not support CategoryManagementCapability"

unfoldable pub pull_categories {ℓ} : {W : Type ℓ} → ShopAdapter W → Action W (List ProductCategory)
pull_categories a = elim a.category_management [
  | none ↦ throw unsupported
  | some m ↦ m.get_categories
]

-- `existing.get(category.parent_id) if category.parent_id else None`
pub remote_parent : Dict String String → ProductCategory → Option String
remote_parent existing category = elim (present category.parent_id) [
  | none ↦ none
  | some parent ↦ get parent existing
]

abbrev same_option : Option String → Option String → Bool
same_option none none = true
same_option (some x) (some y) = x == y
same_option _ _ = false

-- whether a snapshot of the remote category shows nothing to update
unchanged : Option ProductCategory → ProductCategory → Option String → Bool
unchanged none category parent = false
unchanged (some snapshot) category parent =
    snapshot.name == category.name && same_option (present snapshot.parent_id) (present parent)

-- The loop's variables.
pub record Progress : Type 0 where
  pub existing : Dict String String
  pub result : CategorySyncResult

local_id_for : Bool → ProductCategory → Option String
local_id_for accepts category = if accepts then some category.category_id else none

add_created : ProductCategory → Progress → ProductCategory → Progress
add_created category s created = record {
  existing = put category.category_id created.category_id s.existing;
  result = record s.result {
    created =
        s.result.created
        ++ record {
          local_id = category.category_id;
          remote_id = created.category_id;
          name = category.name;
        }
          ∷ [];
  };
}

add_updated : ProductCategory → Progress → Progress
add_updated category s = record s {
  result = record s.result { updated = s.result.updated ++ category.category_id ∷ [] };
}

module _ {ℓ} {W : Type ℓ} (m : CategoryManagement W) where
  create_missing : Progress → ProductCategory → Action W Progress
  unfolding add_created local_id_for remote_parent
  create_missing s category = do
    created ←
        m.create_category category.name (remote_parent s.existing category)
          (local_id_for m.accepts_local_category_id category)
    pure (add_created category s created)

  update_mapped :
      Dict String ProductCategory → Progress → ProductCategory → String → Action W Progress
  unfolding unchanged add_updated remote_parent
  update_mapped remote_categories s category remote_id =
      let parent = remote_parent s.existing category in
      if unchanged (get remote_id remote_categories) category parent then pure s else (do
        m.update_category (record {
          category_id = remote_id;
          name = category.name;
          parent_id = parent;
          extra = [];
        })
        pure (add_updated category s))

  sync_one :
      Bool
      → Dict String ProductCategory
      → Progress
      → ProductCategory
      → Option String
      → Action W Progress
  unfolding create_missing update_mapped
  sync_one update_existing remote_categories s category none = create_missing s category
  sync_one update_existing remote_categories s category (some remote_id) =
      if not update_existing then pure s else update_mapped remote_categories s category remote_id

  sync_from :
      Bool → Dict String ProductCategory → List ProductCategory → Progress → Action W Progress
  unfolding sync_one
  sync_from update_existing remote_categories [] s = pure s
  sync_from update_existing remote_categories (category ∷ categories) s = do
    s' ← sync_one update_existing remote_categories s category (get category.category_id s.existing)
    sync_from update_existing remote_categories categories s'

module _ {ℓ} {W : Type ℓ} where
  -- by whether the adapter has `CategoryManagementCapability`
  sync_managed :
      Option (CategoryManagement W)
      → List ProductCategory
      → Dict String String
      → Bool
      → Dict String ProductCategory
      → Action W CategorySyncResult
  unfolding sync_from
  sync_managed none categories existing update_existing remote_categories = throw unsupported
  sync_managed (some m) categories existing update_existing remote_categories = do
    s ←
        sync_from m update_existing remote_categories categories
          (record { existing = existing; result = record { created = []; updated = [] } })
    pure s.result

module _ {ℓ} {W : Type ℓ} (a : ShopAdapter W) where
  unfoldable pub sync_categories :
      List ProductCategory
      → Dict String String
      → Bool
      → Dict String ProductCategory
      → Action W CategorySyncResult
  unfolding sync_managed
  sync_categories = sync_managed a.category_management

  unfoldable pub push_categories :
      List ProductCategory → Dict String String → Action W (List CategoryMapping)
  unfolding sync_categories
  push_categories categories existing = do
    r ← sync_categories categories existing false []
    pure r.created
