-- ===== src/Django/Push/Lock.antt =====
-- The lock of services/push.py.
use bapp_connectors.Django.Push.Report.{PushItem, PushReport, new_report}
use bapp_connectors.Django.Desk.{Desk, IsReleased, acquire_lock, is_held, outside_only}
use bapp_connectors.Base.{Bool, Bool-cases, List, arith, false, inl, inr, refl, true, ◌≡◌, ◌⊎◌}
use bapp_connectors.Errors.{Exn}
use bapp_connectors.Effect.{AfterOk, AfterOk-bind, AfterOk-catch, ◌>>=◌, ◌>>◌}
use bapp_connectors.Django.SyncState.{SyncStatus, mark_completed, mark_failed, mark_running}
use bapp_connectors.Django.Push.{
  PushCall, note_failure, push, push_items, push_locked, release, released, resolve_adapter,
}

-- Released, where the push is to release.
abbrev pub LetGo : Bool → SyncStatus → Type 0
LetGo true status = IsReleased status
LetGo false status = Unit

module _ {ℓ} {W : Type ℓ} (c : PushCall W) where
  abbrev Freed : Desk PushReport W → Type 0
  Freed d = IsReleased d.state.status

  release-IsReleased : (d : Desk PushReport W) → c.release_lock ≡ true → AfterOk Freed (release c d)
  unfolding release released mark_completed
  release-IsReleased d h = rw h tt

  note_failure-IsReleased : (e : Exn) (d : Desk PushReport W) → Freed (note_failure c e d).1
  unfolding note_failure mark_failed
  note_failure-IsReleased e d = tt

  push_locked-IsReleased :
      (items : List PushItem) (d : Desk PushReport W)
      → c.release_lock ≡ true
      → Freed (push_locked c items d).1
  unfolding push_locked
  push_locked-IsReleased items d h =
      AfterOk-catch Freed (note_failure c)
        (do a ← outside_only (resolve_adapter c); push_items c items a; release c) d
        (AfterOk-bind Freed (λ a. push_items c items a >>= λ _. release c)
          (outside_only (resolve_adapter c)) d
          (λ a d'.
            AfterOk-bind Freed (λ _. release c) (push_items c items a) d'
              (λ _ d''. release-IsReleased d'' h)))
        note_failure-IsReleased

  push_held :
      (items : List PushItem) (d : Desk PushReport W)
      → is_held (c.now d.outside) d.state ≡ true
      → push c items d ≡ record d { report = record new_report { locked = true } }
  unfolding push acquire_lock
  push_held items d h = ground arith

  pub push_free :
      (items : List PushItem) (d : Desk PushReport W)
      → is_held (c.now d.outside) d.state ≡ false
      → push c items d
        ≡ (push_locked c items
            (record d { state = mark_running (c.now d.outside) d.state; report = new_report })).1
  unfolding push acquire_lock
  push_free items d h = ground arith

  free_push-LetGo :
      (items : List PushItem) (d : Desk PushReport W) (release_lock : Bool)
      → c.release_lock ≡ release_lock
      → LetGo release_lock (push_locked c items d).1.state.status
  free_push-LetGo items d true h = push_locked-IsReleased items d h
  free_push-LetGo items d false h = tt

  -- A push that finds the lock held by a run that is not stale changes nothing and reports that,
  -- whether it is to release the lock or not. Any other push, where it is to release the lock, leaves
  -- it released, as completed or as failed, whatever the adapter and its construction raise.
  pub push-IsReleased :
      (items : List PushItem) (d : Desk PushReport W)
      → ((is_held (c.now d.outside) d.state ≡ true)
          × (push c items d ≡ record d { report = record new_report { locked = true } }))
        ⊎ ((is_held (c.now d.outside) d.state ≡ false)
            × LetGo c.release_lock (push c items d).state.status)
  push-IsReleased items d = elim (Bool-cases (is_held (c.now d.outside) d.state)) [
    | inl held ↦ inl (held, push_held items d held)
    | inr free ↦
        inr (free, rw (push_free items d free) (free_push-LetGo items _ c.release_lock refl))
  ]
