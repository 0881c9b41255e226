-- ===== src/Django/Push/Report.antt =====
-- The items and the report of services/push.py.
use bapp_connectors.Base.{Bool, List, String, [], false, true, ℕ, ◌+◌, string_key}
use bapp_connectors.Sync.Dto.{Extra, Product}

pub record PushItem : Type 0 where
  pub local_id : String
  pub dto : Product
  pub content_hash : String
  pub extra : Extra

-- an entry of `errors` in a report
pub record ReportError : Type 0 where
  pub local_id : String
  pub error : String
  pub code : String
  pub extra : Extra

pub record PushReport : Type 0 where
  pub created : ℕ
  pub updated : ℕ
  pub skipped_unchanged : ℕ
  pub failed : ℕ
  pub processed : ℕ
  pub errors : List ReportError
  pub locked : Bool

abbrev pub new_report : PushReport
new_report = record {
  created = 0;
  updated = 0;
  skipped_unchanged = 0;
  failed = 0;
  processed = 0;
  errors = [];
  locked = false;
}

abbrev pub count_link : Bool → PushReport → PushReport
count_link true r = record r { created = r.created + 1 }
count_link false r = record r { updated = r.updated + 1 }
