-- ===== src/Django/Tasks.antt =====
-- packages/django/src/django_bapp_connectors/tasks.py: the tasks that run on a connection. Their state
-- is the connection's store and the outside world; `timezone.now()` is an argument.
pub mod Outages
pub mod Tests
use bapp_connectors.Base.{Bool, Option, String, false, if◌then◌else◌, none, some, ℕ}
use bapp_connectors.Errors.{Exn, is_authentication_error, text_of}
use bapp_connectors.Effect.{Action, Outcome, ok, raise, ◌>>=◌, ◌>>◌}
use bapp_connectors.Django.Connection.{Store, is_operational, mark_connected, record_auth_failure}
use bapp_connectors.Django.Sync.{Source, SyncResult, World, full_resync, incremental_sync}

-- `_guard_operational`
abbrev pub guard_operational : Store → Bool
guard_operational s = is_operational s.object

-- `_handle_auth_error`
pub handle_auth_error : ℕ → Exn → Store → Store
handle_auth_error now e s =
    if is_authentication_error e then record_auth_failure now (text_of e) s else s

-- `if not connection.is_connected: connection.mark_connected()`
pub ensure_connected : ℕ → Store → Store
ensure_connected now s = if s.object.is_connected then s else mark_connected now s

module _ {ℓ κ} {W : Type ℓ} {R : Type κ} (now : ℕ) where
  -- the `try` of a task and its handler
  pub settle_task : Outcome R × (Store × W) → Outcome (Option R) × (Store × W)
  unfolding ensure_connected handle_auth_error
  settle_task (ok r, (s, w)) = (ok (some r), (ensure_connected now s, w))
  settle_task (raise e, (s, w)) = (raise e, (handle_auth_error now e s, w))

  pub run_guarded : Action (Store × W) R → Action (Store × W) (Option R)
  unfolding settle_task
  run_guarded body (s, w) =
      if guard_operational s then settle_task (body (s, w)) else (ok none, (s, w))

-- The body is `connection.get_adapter()` and the method that the task names, with its arguments.
unfoldable pub execute_adapter_method {ℓ κ υ} :
    {W : Type ℓ} {A : Type κ} {R : Type υ}
    → ℕ
    → Action (Store × W) A
    → (A → Action (Store × W) R)
    → Action (Store × W) (Option R)
unfolding run_guarded
execute_adapter_method now get_adapter method =
    run_guarded now (do adapter ← get_adapter; method adapter)

-- the service on its own part of the state
beside_store {ℓ κ} : {W : Type ℓ} {X : Type κ} → Action W X → Action (Store × W) X
beside_store m (s, w) = let (o, w') = m w in (o, (s, w'))

module _ {ℓ} {W A I : Type ℓ} (now : ℕ) (c : Source W A I) where
  unfoldable pub incremental_sync_task : String → Action (Store × World W) (Option SyncResult)
  unfolding run_guarded beside_store incremental_sync
  incremental_sync_task resource_type =
      run_guarded now (beside_store (incremental_sync c resource_type none false))

  unfoldable pub full_resync_task : String → Action (Store × World W) (Option SyncResult)
  unfolding run_guarded beside_store full_resync
  full_resync_task resource_type = run_guarded now (beside_store (full_resync c resource_type none))
