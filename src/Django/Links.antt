-- ===== src/Django/Links.antt =====
-- packages/django/src/django_bapp_connectors/models/sync_link.py: the links of one connection and one
-- resource type, by their local id, which is unique among them. Saving writes the fields that have
-- changed, so the object stands for its row. The time of the call is an argument.
use bapp_connectors.Base.{
  Bool, Option, String, [], false, if◌then◌else◌, none, or_else, prefix, some, true, ℕ, ◌∷◌,
  string_key,
}
use bapp_connectors.Base.Dict.{Dict, get, put, update}
use bapp_connectors.Sync.Dto.{Extra}

pub data LinkStatus : Type 0 where
  pending linked error_status skipped_status conflict_status : LinkStatus

pub record SyncLink : Type 0 where
  pub local_id : String
  pub remote_id : String
  pub content_hash : String
  pub remote_hash : String
  pub status : LinkStatus
  pub last_error : String
  pub last_pushed_at : Option ℕ
  pub last_pulled_at : Option ℕ
  pub extra : Extra

abbrev pub Links : Type 0
Links = Dict String SyncLink

-- a link that `create` makes from a local and a remote id
abbrev pub new_link : String → String → SyncLink
new_link local_id remote_id = record {
  local_id = local_id;
  remote_id = remote_id;
  content_hash = "";
  remote_hash = "";
  status = pending;
  last_error = "";
  last_pushed_at = none;
  last_pulled_at = none;
  extra = [];
}

-- `get_or_create(local_id=..., defaults={"remote_id": ...})`
abbrev pub get_or_create : String → String → Links → SyncLink × Links
get_or_create local_id remote_id links = elim (get local_id links) [
  | some link ↦ (link, links)
  | none ↦ let link = new_link local_id remote_id in (link, put local_id link links)
]

abbrev pub is_linked : LinkStatus → Bool
is_linked linked = true
is_linked _ = false

-- `_merge_extra`
abbrev pub merge_extra : Extra → Extra → Extra
merge_extra extra more = update extra more

-- the arguments of `mark_linked` that its callers pass
pub record LinkUpdate : Type 0 where
  pub remote_id : String
  pub content_hash : String
  pub remote_hash : String
  pub pushed : Bool
  pub pulled : Bool
  pub extra : Extra

unfoldable pub mark_linked : ℕ → LinkUpdate → SyncLink → SyncLink
mark_linked now u link = record link {
  remote_id = or_else u.remote_id link.remote_id;
  content_hash = u.content_hash;
  remote_hash = u.remote_hash;
  last_pushed_at = if u.pushed then some now else link.last_pushed_at;
  last_pulled_at = if u.pulled then some now else link.last_pulled_at;
  status = linked;
  last_error = "";
  extra = merge_extra link.extra u.extra;
}

unfoldable pub mark_error : String → Extra → SyncLink → SyncLink
mark_error error extra link = record link {
  status = error_status;
  last_error = prefix 2000 error;
  extra = merge_extra link.extra extra;
}

unfoldable pub mark_skipped : String → SyncLink → SyncLink
mark_skipped reason link = record link {
  status = skipped_status;
  last_error = "";
  extra = merge_extra link.extra (("skip_reason", reason) ∷ []);
}

unfoldable pub mark_conflict : String → SyncLink → SyncLink
mark_conflict reason link = record link {
  status = conflict_status;
  last_error = prefix 2000 reason;
}
