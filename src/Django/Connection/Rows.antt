-- ===== src/Django/Connection/Rows.antt =====
-- The rows that models/connection.py saves.
use mathlib.Core.Path.{subst}
use bapp_connectors.Base.{
  Bool, List, String, [], arith, false, if◌then◌else◌, refl, sym, true, ℕ, ◌∷◌, ◌≡◌,
}
use bapp_connectors.Django.Connection.{
  Connection, Signal, Store, count_failure, disabling_fields, emit_disabled, emit_status_changed,
  failure_fields, mark_connected, note_test, over_threshold, re_enable, record_auth_failure, save,
  settle_test, trip,
}
use bapp_connectors.Django.Connection.Breaker.{
  Event, after, auth_failure, connected, happen, re_enabled, service_tested, tested,
}

-- The row holds what the object holds.
abbrev pub IsSaved : Store → Type 0
IsSaved s = s.row ≡ s.object

emit_status_changed-IsSaved :
    (x y : Bool) (s : Store) → IsSaved s → IsSaved (emit_status_changed x y s)
unfolding emit_status_changed
emit_status_changed-IsSaved x y s h = ground (arith)

emit_disabled-IsSaved : (s : Store) → IsSaved s → IsSaved (emit_disabled s)
unfolding emit_disabled
emit_disabled-IsSaved s h = ground (arith)

module _ (now : ℕ) (c : Connection) (sent : List Signal) where
  IsSaved-by_threshold :
      (reason : String) (b : Bool)
      → over_threshold (count_failure now c) ≡ b
      → let failed = trip reason (count_failure now c) in
        let fields = if over_threshold failed then disabling_fields else failure_fields in
        IsSaved (save now fields (record { object = failed; row = c; sent = sent }))
  unfolding trip save count_failure over_threshold
  IsSaved-by_threshold reason true h = rw (h, over_threshold) (rw (h, over_threshold) refl)
  IsSaved-by_threshold reason false h = rw (h, over_threshold) (rw (h, over_threshold) refl)

  failure-IsSaved :
      (reason : String)
      → IsSaved (record_auth_failure now reason (record { object = c; row = c; sent = sent }))
  unfolding record_auth_failure
  failure-IsSaved reason = emit_disabled-IsSaved _ (
      emit_status_changed-IsSaved c.is_connected c.is_enabled _
        (IsSaved-by_threshold reason (over_threshold (count_failure now c)) refl))

  connected-IsSaved : IsSaved (mark_connected now (record { object = c; row = c; sent = sent }))
  unfolding mark_connected emit_status_changed save
  connected-IsSaved = ground arith

  re_enable-IsSaved : IsSaved (re_enable now (record { object = c; row = c; sent = sent }))
  unfolding re_enable emit_status_changed save
  re_enable-IsSaved = ground arith

  tested-IsSaved :
      (b : Bool) (reason : String)
      → IsSaved (
          let s : Store = record { object = c; row = c; sent = sent } in
          if b then mark_connected now s else record_auth_failure now reason s)
  tested-IsSaved true reason = connected-IsSaved
  tested-IsSaved false reason = failure-IsSaved reason

happen_together-IsSaved :
    (e : Event) (c : Connection) (sent : List Signal)
    → IsSaved (happen e (record { object = c; row = c; sent = sent }))
unfolding happen settle_test note_test save
happen_together-IsSaved (auth_failure now reason) c sent = failure-IsSaved now c sent reason
happen_together-IsSaved (connected now) c sent = connected-IsSaved now c sent
happen_together-IsSaved (re_enabled now) c sent = re_enable-IsSaved now c sent
happen_together-IsSaved (tested now r) c sent = tested-IsSaved now c sent r.success r.message
happen_together-IsSaved (service_tested now r) c sent = refl

happen-IsSaved : (e : Event) (s : Store) → IsSaved s → IsSaved (happen e s)
happen-IsSaved e s h =
    subst (λ row. IsSaved (happen e (record s { row = row }))) (sym h)
      (happen_together-IsSaved e s.object s.sent)

-- Every method saves all the fields that it changes: from a store whose row holds what the object
-- holds, the row holds it after any history.
pub after-IsSaved : (start : Store) (h : List Event) → IsSaved start → IsSaved (after start h)
unfolding after
after-IsSaved start [] saved = saved
after-IsSaved start (e ∷ h) saved = happen-IsSaved e (after start h) (after-IsSaved start h saved)
