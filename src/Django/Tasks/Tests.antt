-- ===== src/Django/Tasks/Tests.antt =====
-- The tasks of tasks.py and the sync service on concrete inputs.
use bapp_connectors.Base.{List, String, [], false, none, refl, some, true, ℕ, ◌+◌, ◌∷◌, ◌≡◌}
use bapp_connectors.Errors.{Exn, authentication_error, connector}
use bapp_connectors.Effect.{Returns, ok, raise}
use bapp_connectors.Django.Connection.{Connection, Store, record_auth_failure}
use bapp_connectors.Django.Sync.{Source, World, incremental_sync}
use bapp_connectors.Django.SyncState.{new_sync_state}
use bapp_connectors.Django.Sync.Endings.{Ends, incremental_sync-Ends}
use bapp_connectors.Django.Tasks.{full_resync_task, incremental_sync_task}
use bapp_connectors.Django.Tasks.Outages.{
  Call, OneFailure, run_tasks, sync_tasks_record_nothing, tasks_record_once,
}

abbrev live : Store
live =
    let c : Connection = record {
      provider_family = "shop";
      provider_name = "woocommerce";
      is_enabled = true;
      is_connected = true;
      auth_failure_count = 0;
      last_auth_failure_at = none;
      disabled_reason = "";
      updated_at = 0;
    } in
    record { object = c; row = c; sent = [] }

abbrev bad_key : Exn
bad_key = connector (record {
  kind = authentication_error;
  message = "bad key";
  retryable = false;
  status_code = some 401;
  retry_after = none;
})

-- a call that is refused, on an outside world that counts the calls
abbrev refused_call : Call ℕ ℕ ℕ
refused_call = record {
  now = 9;
  get_adapter = λ s. (ok 0, s);
  method = λ adapter s. (raise bad_key, (s.0, s.1 + 1));
}

abbrev two_calls : List (Call ℕ ℕ ℕ)
two_calls = refused_call ∷ refused_call ∷ []

tasks_record_once_example : OneFailure live (run_tasks two_calls (live, 0)).0
tasks_record_once_example = tasks_record_once two_calls live 0 ((λ s w. refl), ((λ s w. refl), tt))

second_skipped : (run_tasks two_calls (live, 0)).1 ≡ 1
unfolding run_tasks record_auth_failure
second_skipped = refl

-- A source that refuses, in a world that counts its seconds.
abbrev refusing : Source ℕ ℕ String
refusing = record {
  get_adapter = λ w. (raise bad_key, w + 1);
  method = λ adapter resource. none;
  now = λ w. w;
}

orders : World ℕ
unfolding new_sync_state
orders = record {
  state = record (new_sync_state "orders" 0) { cursor = "p4" };
  sent = [];
  outside = 3;
}

incremental_sync-Ends_example :
    Ends false orders (incremental_sync refusing "orders" none false orders)
incremental_sync-Ends_example = incremental_sync-Ends refusing "orders" none false orders

sync_tasks_record_nothing_example :
    (Returns (λ _. Unit) (incremental_sync_task 9 refusing "orders" (live, orders)).0
      × ((incremental_sync_task 9 refusing "orders" (live, orders)).1.0 ≡ live))
    × (Returns (λ _. Unit) (full_resync_task 9 refusing "orders" (live, orders)).0
        × ((full_resync_task 9 refusing "orders" (live, orders)).1.0 ≡ live))
sync_tasks_record_nothing_example = sync_tasks_record_nothing 9 refusing "orders" live orders
