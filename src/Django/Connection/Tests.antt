-- ===== src/Django/Connection/Tests.antt =====
-- The connection of models/connection.py over a concrete history.
use bapp_connectors.Base.{List, [], false, refl, true, ◌↔◌, ◌∷◌, ◌≡◌}
use bapp_connectors.Django.Connection.{
  ConnectionTestResult, Store, new_connection, note_test, record_auth_failure,
}
use bapp_connectors.Django.Connection.Breaker.{
  Event, Tripped, after, auth_failure, connected, count_of, disabled_iff_Tripped, enabled_of,
  service_tested, tested,
}
use bapp_connectors.Django.Connection.Rows.{IsSaved}

fresh : Store
unfolding new_connection
fresh = let c = new_connection "shop" "woocommerce" 0 in record { object = c; row = c; sent = [] }

rejected : ConnectionTestResult
rejected = record { success = false; message = "bad key" }

-- the latest event first: two failures, a test of the service, and a failed test
history : List Event
unfolding rejected
history =
    tested 40 rejected
    ∷ service_tested 30 (record { success = true; message = "" })
    ∷ auth_failure 20 "401"
    ∷ auth_failure 10 "401"
    ∷ connected 5
    ∷ []

history_disables : enabled_of (after fresh history) ≡ false
unfolding fresh after history rejected record_auth_failure note_test new_connection
history_disables = refl

fresh_count : count_of fresh ≡ 0
unfolding fresh
fresh_count = refl

fresh_enabled : enabled_of fresh ≡ true
unfolding fresh
fresh_enabled = refl

fresh-IsSaved : IsSaved fresh
unfolding fresh
fresh-IsSaved = refl

disabled_iff_Tripped_example : (enabled_of (after fresh history) ≡ false) ↔ Tripped history
disabled_iff_Tripped_example = disabled_iff_Tripped fresh fresh_count fresh_enabled history
