-- ===== src/Django/SyncState.antt =====
-- packages/django/src/django_bapp_connectors/models/sync_state.py. Saving writes the fields that have
-- changed, so the object stands for its row; `updated_at` is set on every save. The time of the call
-- is an argument.
use bapp_connectors.Base.{Option, String, none, or_else, prefix, some, ℕ, ◌+◌}

pub data SyncStatus : Type 0 where
  idle running completed failed : SyncStatus

pub record SyncState : Type 0 where
  pub resource_type : String
  pub cursor : String
  pub last_sync_at : Option ℕ
  pub status : SyncStatus
  pub error_count : ℕ
  pub last_error : String
  pub updated_at : Option ℕ

-- the fields of a state that `get_or_create` makes
unfoldable pub new_sync_state : String → ℕ → SyncState
new_sync_state resource_type now = record {
  resource_type = resource_type;
  cursor = "";
  last_sync_at = none;
  status = idle;
  error_count = 0;
  last_error = "";
  updated_at = some now;
}

unfoldable pub mark_running : ℕ → SyncState → SyncState
mark_running now s = record s { status = running; updated_at = some now }

-- `last_sync_at or timezone.now()`
abbrev pub or_now : ℕ → Option ℕ → ℕ
or_now now none = now
or_now now (some at) = at

-- an empty cursor keeps the old one
unfoldable pub mark_completed : ℕ → String → Option ℕ → SyncState → SyncState
mark_completed now cursor last_sync_at s = record s {
  status = completed;
  error_count = 0;
  last_error = "";
  cursor = or_else cursor s.cursor;
  last_sync_at = some (or_now now last_sync_at);
  updated_at = some now;
}

unfoldable pub mark_failed : ℕ → String → SyncState → SyncState
mark_failed now error s = record s {
  status = failed;
  error_count = s.error_count + 1;
  last_error = prefix 2000 error;
  updated_at = some now;
}

-- the cursor is set to the empty text and saved
unfoldable pub reset_cursor : ℕ → SyncState → SyncState
reset_cursor now s = record s { cursor = ""; updated_at = some now }
