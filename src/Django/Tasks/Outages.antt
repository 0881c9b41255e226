-- ===== src/Django/Tasks/Outages.antt =====
-- What the tasks of tasks.py do to the circuit breaker of a connection.
use mathlib.Core.Path.{subst}
use bapp_connectors.Base.{
  All, Bool, Bool-cases, List, String, [], arith, false, if◌then◌else◌, inl, inr, leb, none, refl,
  true, ℕ, ◌+◌, ◌∷◌, ◌≡◌, ◌⊎◌,
}
use bapp_connectors.Effect.{Action, Outcome, Returns, ok, raise, ◌>>=◌}
use bapp_connectors.Django.Connection.{Store}
use bapp_connectors.Django.Connection.Breaker.{
  connected_of, count_of, enabled_of, failure_disconnects, failure_step,
}
use bapp_connectors.Django.Tasks.{
  beside_store, ensure_connected, execute_adapter_method, full_resync_task, guard_operational,
  handle_auth_error, incremental_sync_task, run_guarded, settle_task,
}
use bapp_connectors.Errors.{Exn, is_authentication_error, text_of}
use bapp_connectors.Django.Sync.{Source, World, full_resync, incremental_sync}
use bapp_connectors.Django.Sync.Endings.{full_resync_cursor, incremental_sync-Ends}

-- A connection after some tasks: as it was, or disconnected with one failure more.
abbrev pub OneFailure : Store → Store → Type 0
OneFailure s t =
    (t ≡ s)
    ⊎ ((connected_of t ≡ false)
        × (count_of t ≡ count_of s + 1)
        × (enabled_of t ≡ (if leb 3 (count_of s + 1) then false else enabled_of s)))

handled : (now : ℕ) (e : Exn) (s : Store) → OneFailure s (handle_auth_error now e s)
unfolding handle_auth_error
handled now e s = by_class (is_authentication_error e) refl
  where
    by_class : (b : Bool) → is_authentication_error e ≡ b → OneFailure s (handle_auth_error now e s)
    by_class true h =
        let step = failure_step now (text_of e) s in
        rw h (inr (failure_disconnects now (text_of e) s, step.0, step.1))
    by_class false h = rw h (inl refl)

settled {ℓ κ} :
    {W : Type ℓ} {R : Type κ} (now : ℕ) (s : Store) (r : Outcome R × (Store × W))
    → connected_of s ≡ true
    → r.1.0 ≡ s
    → OneFailure s (settle_task now r).1.0
unfolding settle_task ensure_connected
settled now s (ok r, (t, w)) up same = inl (ground (arith))
settled now s (raise e, (t, w)) up same = rw same (handled now e s)

guarded-OneFailure {ℓ κ} :
    {W : Type ℓ} {R : Type κ} (now : ℕ) (body : Action (Store × W) R) (s : Store) (w : W)
    → (body (s, w)).1.0 ≡ s
    → OneFailure s (run_guarded now body (s, w)).1.0
unfolding run_guarded
guarded-OneFailure now body s w same = elim (Bool-cases (guard_operational s)) [
  | inl up ↦ rw (up, guard_operational) (settled now s (body (s, w)) (ground arith) same)
  | inr down ↦ rw (down, guard_operational) (inl refl)
]

guarded_skips {ℓ κ} :
    {W : Type ℓ} {R : Type κ} (now : ℕ) (body : Action (Store × W) R) (s : Store) (w : W)
    → connected_of s ≡ false
    → run_guarded now body (s, w) ≡ (ok none, (s, w))
unfolding run_guarded
guarded_skips now body s w down = ground arith

-- A call of an adapter: the time at which it ends, the adapter and the method.
pub record Call {ℓ} (W A R : Type ℓ) : Type ℓ where
  pub now : ℕ
  pub get_adapter : Action (Store × W) A
  pub method : A → Action (Store × W) R

module _ {ℓ} {W A R : Type ℓ} where
  abbrev pub LeavesConnection : Call W A R → Type ℓ
  LeavesConnection call = (s : Store) (w : W) → ((call.get_adapter >>= call.method) (s, w)).1.0 ≡ s

  -- the tasks of some calls, one after the other; a task that raises ends alone
  unfoldable pub run_tasks : List (Call W A R) → Store × W → Store × W
  unfolding execute_adapter_method
  run_tasks [] s = s
  run_tasks (call ∷ calls) s =
      run_tasks calls (execute_adapter_method call.now call.get_adapter call.method s).1

  task-OneFailure :
      (call : Call W A R) (s : Store) (w : W)
      → LeavesConnection call
      → OneFailure s (execute_adapter_method call.now call.get_adapter call.method (s, w)).1.0
  unfolding execute_adapter_method
  task-OneFailure call s w leaves =
      guarded-OneFailure call.now (call.get_adapter >>= call.method) s w (leaves s w)

  skipped :
      (calls : List (Call W A R)) (s : Store) (w : W)
      → connected_of s ≡ false
      → run_tasks calls (s, w) ≡ (s, w)
  unfolding run_tasks execute_adapter_method
  skipped [] s w down = refl
  skipped (call ∷ calls) s w down =
      rw (guarded_skips call.now (call.get_adapter >>= call.method) s w down)
        (skipped calls s w down)

  -- The tasks of any calls of adapters that leave the connection alone record at most one failure:
  -- they end with the connection as it was, or disconnected with exactly one failure more.
  pub tasks_record_once :
      (calls : List (Call W A R)) (s : Store) (w : W)
      → All LeavesConnection calls
      → OneFailure s (run_tasks calls (s, w)).0
  unfolding run_tasks
  tasks_record_once [] s w leave = inl refl
  tasks_record_once (call ∷ calls) s w leave =
      let first = execute_adapter_method call.now call.get_adapter call.method (s, w) in
      elim (task-OneFailure call s w leave.0) [
        | inl same ↦
            subst (λ t. OneFailure t (run_tasks calls first.1).0) same
              (tasks_record_once calls first.1.0 first.1.1 leave.1)
        | inr one ↦ rw (skipped calls first.1.0 first.1.1 one.0) (inr one)
      ]

-- A body that returns and leaves the connection alone.
guarded-Returns {ℓ κ} :
    {W : Type ℓ} {R : Type κ} (now : ℕ) (body : Action (Store × W) R) (s : Store) (w w' : W) (r : R)
    → body (s, w) ≡ (ok r, (s, w'))
    → Returns (λ _. Unit) (run_guarded now body (s, w)).0 × ((run_guarded now body (s, w)).1.0 ≡ s)
unfolding run_guarded settle_task ensure_connected
guarded-Returns now body s w w' r h = elim (Bool-cases (guard_operational s)) [
  | inl up ↦ rw (up, guard_operational) (rw h (tt, ground arith))
  | inr down ↦ rw (down, guard_operational) (tt, refl)
]

module _ {ℓ} {W A I : Type ℓ} (now : ℕ) (c : Source W A I) (resource_type : String) (s : Store)
    (w : World W) where
  -- The sync tasks never raise and never touch the connection: whatever the adapter raises, an
  -- authentication error included, no failure is recorded.
  pub sync_tasks_record_nothing :
      (Returns (λ _. Unit) (incremental_sync_task now c resource_type (s, w)).0
        × ((incremental_sync_task now c resource_type (s, w)).1.0 ≡ s))
      × (Returns (λ _. Unit) (full_resync_task now c resource_type (s, w)).0
          × ((full_resync_task now c resource_type (s, w)).1.0 ≡ s))
  unfolding incremental_sync_task full_resync_task beside_store
  sync_tasks_record_nothing =
      let (r, w', e, _) = incremental_sync-Ends c resource_type none false w in
      let full = full_resync_cursor c resource_type none w in
      (
        guarded-Returns now (beside_store (incremental_sync c resource_type none false)) s w w' r
            (rw e refl),
        guarded-Returns now (beside_store (full_resync c resource_type none)) s w full.1 full.0
            (rw full.2 refl),
      )
