-- ===== src/Django/Connection.antt =====
-- packages/django/src/django_bapp_connectors/models/connection.py: `AbstractConnection` with its
-- circuit breaker, and `ConnectionService.test_connection` of services/connection.py. The object in
-- memory and its row are two records: `save` writes the listed fields. `timezone.now()` is an
-- argument, and the signals sent are a list, the last one at the end.
pub mod Breaker
pub mod Rows
pub mod Tests
use bapp_connectors.Base.{
  Bool, List, Option, String, [], false, if◌then◌else◌, leb, none, not, prefix, some, str, true, ℕ,
  ◌&&◌, ◌++◌, ◌+◌, ◌<>◌, ◌||◌, ◌∷◌,
}

abbrev pub auth_failure_threshold : ℕ
auth_failure_threshold = 3

pub record Connection : Type 0 where
  pub provider_family : String
  pub provider_name : String
  pub is_enabled : Bool
  pub is_connected : Bool
  pub auth_failure_count : ℕ
  pub last_auth_failure_at : Option ℕ
  pub disabled_reason : String
  pub updated_at : ℕ

pub data Signal : Type 0 where
  -- `is_connected`, `is_enabled`, and both before the change
  connection_status_changed : Bool → Bool → Bool → Bool → Signal
  connection_disabled : ℕ → String → Signal

pub record Store : Type 0 where
  pub object : Connection
  pub row : Connection
  pub sent : List Signal

pub data Field : Type 0 where
  is_enabled_field is_connected_field auth_failure_count_field last_auth_failure_at_field
        disabled_reason_field :
      Field

abbrev write_field : Connection → Connection → Field → Connection
write_field object row is_enabled_field = record row { is_enabled = object.is_enabled }
write_field object row is_connected_field = record row { is_connected = object.is_connected }
write_field object row auth_failure_count_field = record row {
  auth_failure_count = object.auth_failure_count;
}
write_field object row last_auth_failure_at_field = record row {
  last_auth_failure_at = object.last_auth_failure_at;
}
write_field object row disabled_reason_field = record row {
  disabled_reason = object.disabled_reason;
}

abbrev write_fields : Connection → List Field → Connection → Connection
write_fields object [] row = row
write_fields object (f ∷ fs) row = write_fields object fs (write_field object row f)

-- `save(update_fields=[..., "updated_at"])`; every caller lists `updated_at`
pub save : ℕ → List Field → Store → Store
save now fields s =
    let object = record s.object { updated_at = now } in
    record s {
      object = object;
      row = record (write_fields object fields s.row) { updated_at = now };
    }

-- the fields of a connection that has just been made
unfoldable pub new_connection : String → String → ℕ → Connection
new_connection family name now = record {
  provider_family = family;
  provider_name = name;
  is_enabled = true;
  is_connected = false;
  auth_failure_count = 0;
  last_auth_failure_at = none;
  disabled_reason = "";
  updated_at = now;
}

abbrev pub is_operational : Connection → Bool
is_operational c = c.is_enabled && c.is_connected

abbrev differs : Bool → Bool → Bool
differs true b = not b
differs false b = b

pub emit_status_changed : Bool → Bool → Store → Store
emit_status_changed previous_connected previous_enabled s =
    let c = s.object in
    if differs c.is_connected previous_connected || differs c.is_enabled previous_enabled
    then record s {
      sent =
          s.sent
          ++ connection_status_changed c.is_connected c.is_enabled previous_connected
              previous_enabled
            ∷ [];
    }
    else s

abbrev disabling_reason : ℕ → String → String
disabling_reason count reason =
    "Auto-disabled after " <> str count <> " consecutive auth failures. Last: " <> prefix 400 reason

-- the failed object, before the threshold is looked at
count_failure : ℕ → Connection → Connection
count_failure now c = record c {
  auth_failure_count = c.auth_failure_count + 1;
  last_auth_failure_at = some now;
  is_connected = false;
}

over_threshold : Connection → Bool
over_threshold c = leb auth_failure_threshold c.auth_failure_count

trip : String → Connection → Connection
unfolding over_threshold
trip reason c =
    if over_threshold c
    then record c {
      is_enabled = false;
      disabled_reason = disabling_reason c.auth_failure_count reason;
    }
    else c

abbrev failure_fields : List Field
failure_fields = auth_failure_count_field ∷ last_auth_failure_at_field ∷ is_connected_field ∷ []

abbrev disabling_fields : List Field
disabling_fields = failure_fields ++ is_enabled_field ∷ disabled_reason_field ∷ []

emit_disabled : Store → Store
unfolding over_threshold
emit_disabled s =
    if over_threshold s.object
    then record s {
      sent =
          s.sent ++ connection_disabled s.object.auth_failure_count s.object.disabled_reason ∷ [];
    }
    else s

unfoldable pub record_auth_failure : ℕ → String → Store → Store
unfolding emit_disabled emit_status_changed save trip count_failure over_threshold
record_auth_failure now reason s =
    let c = s.object in
    let failed = trip reason (count_failure now c) in
    let fields = if over_threshold failed then disabling_fields else failure_fields in
    emit_disabled (
      emit_status_changed c.is_connected c.is_enabled
        (save now fields (record s { object = failed })))

unfoldable pub mark_connected : ℕ → Store → Store
unfolding emit_status_changed save
mark_connected now s =
    let c = s.object in
    let marked = record c {
      is_connected = true;
      auth_failure_count = 0;
      last_auth_failure_at = none;
      disabled_reason = "";
    } in
    emit_status_changed c.is_connected c.is_enabled (
      save now
        (is_connected_field ∷ auth_failure_count_field ∷ last_auth_failure_at_field
          ∷ disabled_reason_field ∷ [])
        (record s { object = marked }))

unfoldable pub re_enable : ℕ → Store → Store
unfolding emit_status_changed save
re_enable now s =
    let c = s.object in
    let enabled = record c { is_enabled = true; auth_failure_count = 0; disabled_reason = "" } in
    emit_status_changed c.is_connected c.is_enabled (
      save now (is_enabled_field ∷ auth_failure_count_field ∷ disabled_reason_field ∷ [])
        (record s { object = enabled }))

-- `ConnectionTestResult`
pub record ConnectionTestResult : Type 0 where
  pub success : Bool
  pub message : String

-- `AbstractConnection.test_connection`, given the adapter's answer
unfoldable pub settle_test : ℕ → ConnectionTestResult → Store → Store
unfolding mark_connected record_auth_failure
settle_test now result s =
    if result.success then mark_connected now s else record_auth_failure now result.message s

-- `ConnectionService.test_connection`, given the adapter's answer
unfoldable pub note_test : ℕ → ConnectionTestResult → Store → Store
unfolding save
note_test now result s =
    save now (is_connected_field ∷ [])
      (record s { object = record s.object { is_connected = result.success } })
