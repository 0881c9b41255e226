-- ===== src/Django/Desk.antt =====
-- What the push and pull services of packages/django/src/django_bapp_connectors/services share: the
-- lock of services/push.py, which both take, and what they work on.
use bapp_connectors.Base.{
  Bool, false, if◌then◌else◌, ltb, refl, true, ℕ, ◌&&◌, ◌*◌, ◌-◌, ◌≡◌, string_key,
}
use bapp_connectors.Effect.{Action, Outcome}
use bapp_connectors.Django.Connection.{Store}
use bapp_connectors.Django.SyncState.{
  SyncState, SyncStatus, completed, failed, mark_running, or_now, running,
}
use bapp_connectors.Django.Links.{Links}

-- What a run of a service works on: its report, the links, the sync state that is its lock, the
-- connection, and the outside world of the adapter.
pub record Desk {ℓ} (R : Type 0) (W : Type ℓ) : Type ℓ where
  pub report : R
  pub links : Links
  pub state : SyncState
  pub store : Store
  pub outside : W

-- `LOCK_STALE_MINUTES`
abbrev pub lock_stale : ℕ
lock_stale = 30 * 60000

abbrev pub is_running : SyncStatus → Bool
is_running running = true
is_running _ = false

-- a lock that is held and not stale
unfoldable pub is_held : ℕ → SyncState → Bool
is_held now s = is_running s.status && ltb (now - or_now now s.updated_at) lock_stale

-- `acquire_lock`: whether it was taken, and the state
unfoldable pub acquire_lock : ℕ → SyncState → Bool × SyncState
unfolding is_held mark_running
acquire_lock now s = if is_held now s then (false, s) else (true, mark_running now s)

abbrev pub on_outside {ℓ κ} :
    {R : Type 0} {W : Type ℓ} {X : Type κ} → Desk R W → Outcome X × W → Outcome X × Desk R W
on_outside d (o, w) = (o, record d { outside = w })

-- What acts on the outside world alone.
abbrev pub outside_only {ℓ κ} :
    {R : Type 0} {W : Type ℓ} {X : Type κ} → Action W X → Action (Desk R W) X
outside_only m d = on_outside d (m d.outside)

abbrev pub IsReleased : SyncStatus → Type 0
IsReleased completed = Unit
IsReleased failed = Unit
IsReleased _ = ⊥

pub released-free : (now : ℕ) (s : SyncState) → IsReleased s.status → is_held now s ≡ false
unfolding is_held
released-free now s h = by_status s.status h refl
  where
    by_status : (t : SyncStatus) → IsReleased t → s.status ≡ t → is_held now s ≡ false
    by_status completed h e = rw e refl
    by_status failed h e = rw e refl
    by_status _ h e = absurd h
