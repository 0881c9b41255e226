-- ===== src/Django/Connection/Breaker.antt =====
-- The circuit breaker of models/connection.py over whole histories of a connection.
use bapp_connectors.Base.{
  Bool, Bool-cases, List, String, [], arith, false, if◌then◌else◌, inl, inr, leb, leb→le, refl, suc,
  sym, true, zero, ℕ, ◌+◌, ◌↔◌, ◌∙◌, ◌∷◌, ◌≡◌, ◌≤◌, ◌⊎◌,
}
use bapp_connectors.Django.Connection.{
  ConnectionTestResult, Store, count_failure, emit_disabled, emit_status_changed, mark_connected,
  note_test, over_threshold, re_enable, record_auth_failure, save, settle_test, trip,
}

-- What happens to a connection: the model's three methods, its own connection test, and the
-- connection test of the service.
pub data Event : Type 0 where
  auth_failure : ℕ → String → Event
  connected : ℕ → Event
  re_enabled : ℕ → Event
  tested : ℕ → ConnectionTestResult → Event
  service_tested : ℕ → ConnectionTestResult → Event

unfoldable pub happen : Event → Store → Store
unfolding record_auth_failure mark_connected re_enable settle_test note_test
happen (auth_failure now reason) s = record_auth_failure now reason s
happen (connected now) s = mark_connected now s
happen (re_enabled now) s = re_enable now s
happen (tested now result) s = settle_test now result s
happen (service_tested now result) s = note_test now result s

-- the store after a history, the latest event first
unfoldable pub after : Store → List Event → Store
unfolding happen
after start [] = start
after start (e ∷ h) = happen e (after start h)

-- The events that report a failure of the credentials, and those that leave the count alone.
pub data Fails : Event → Type 0 where
  by_method : {now : ℕ} {reason : String} → Fails (auth_failure now reason)
  by_test : {now : ℕ} {r : ConnectionTestResult} → r.success ≡ false → Fails (tested now r)

pub data Neutral : Event → Type 0 where
  by_service : {now : ℕ} {r : ConnectionTestResult} → Neutral (service_tested now r)

-- The latest `n` failures stand together: only neutral events stand between and after them.
pub data Streak : ℕ → List Event → Type 0 where
  nothing : {h : List Event} → Streak 0 h
  one_more : {n : ℕ} {e : Event} {h : List Event} → Fails e → Streak n h → Streak (suc n) (e ∷ h)
  passed : {n : ℕ} {e : Event} {h : List Event} → Neutral e → Streak n h → Streak n (e ∷ h)

abbrev pub Reenables : Event → Type 0
Reenables (re_enabled now) = Unit
Reenables _ = ⊥

-- Some three failures stand together, and nobody has re-enabled the connection since.
pub data Tripped : List Event → Type 0 where
  now_tripped : {e : Event} {h : List Event} → Fails e → Streak 2 h → Tripped (e ∷ h)
  still_tripped : {e : Event} {h : List Event} → ¬ Reenables e → Tripped h → Tripped (e ∷ h)

data Resets : Event → Type 0 where
  by_success : {now : ℕ} → Resets (connected now)
  by_passed_test : {now : ℕ} {r : ConnectionTestResult} → r.success ≡ true → Resets (tested now r)
  by_hand_too : {now : ℕ} → Resets (re_enabled now)

kind : (e : Event) → Fails e ⊎ (Neutral e ⊎ Resets e)
kind (auth_failure now reason) = inl by_method
kind (connected now) = inr (inr by_success)
kind (re_enabled now) = inr (inr by_hand_too)
kind (tested now r) = elim (Bool-cases r.success) [
  | inl good ↦ inr (inr (by_passed_test good))
  | inr bad ↦ inl (by_test bad)
]
kind (service_tested now r) = inr (inl by_service)

abbrev pub count_of : Store → ℕ
count_of s = s.object.auth_failure_count

abbrev pub connected_of : Store → Bool
connected_of s = s.object.is_connected

abbrev pub enabled_of : Store → Bool
enabled_of s = s.object.is_enabled

emit_disabled_keeps :
    (s : Store) → ((emit_disabled s).object ≡ s.object) × ((emit_disabled s).row ≡ s.row)
unfolding emit_disabled
emit_disabled_keeps s = ground arith

emit_status_changed_keeps :
    (x y : Bool) (s : Store)
    → ((emit_status_changed x y s).object ≡ s.object) × ((emit_status_changed x y s).row ≡ s.row)
unfolding emit_status_changed
emit_status_changed_keeps x y s = ground arith

pub failure_step :
    (now : ℕ) (reason : String) (s : Store)
    → (count_of (record_auth_failure now reason s) ≡ count_of s + 1)
      × (enabled_of (record_auth_failure now reason s)
          ≡ (if leb 3 (count_of s + 1) then false else enabled_of s))
unfolding record_auth_failure emit_disabled emit_status_changed save trip count_failure
    over_threshold
failure_step now reason s = ground arith

pub failure_disconnects :
    (now : ℕ) (reason : String) (s : Store)
    → connected_of (record_auth_failure now reason s) ≡ false
unfolding record_auth_failure emit_disabled emit_status_changed save trip count_failure
    over_threshold
failure_disconnects now reason s = ground arith

Fails-step :
    {e : Event} (s : Store)
    → Fails e
    → (count_of (happen e s) ≡ count_of s + 1)
      × (enabled_of (happen e s) ≡ (if leb 3 (count_of s + 1) then false else enabled_of s))
unfolding happen settle_test
Fails-step s (by_method {now} {reason}) = failure_step now reason s
Fails-step s (by_test {now} {r} bad) = rw bad (failure_step now r.message s)

Neutral-step :
    {e : Event} (s : Store)
    → Neutral e
    → (count_of (happen e s) ≡ count_of s) × (enabled_of (happen e s) ≡ enabled_of s)
unfolding happen note_test save
Neutral-step s by_service = (refl, refl)

connected_step :
    (now : ℕ) (s : Store)
    → (count_of (mark_connected now s) ≡ 0) × (enabled_of (mark_connected now s) ≡ enabled_of s)
unfolding mark_connected emit_status_changed save
connected_step now s = ground arith

re_enabled_step :
    (now : ℕ) (s : Store) → (count_of (re_enable now s) ≡ 0) × (enabled_of (re_enable now s) ≡ true)
unfolding re_enable emit_status_changed save
re_enabled_step now s = ground arith

Resets-step :
    {e : Event} (s : Store)
    → Resets e
    → (count_of (happen e s) ≡ 0) × (Reenables e ⊎ (enabled_of (happen e s) ≡ enabled_of s))
unfolding happen settle_test
Resets-step s (by_success {now}) = let h = connected_step now s in (h.0, inr h.1)
Resets-step s (by_passed_test {now} good) = let h = connected_step now s in rw good (h.0, inr h.1)
Resets-step s (by_hand_too {now}) = ((re_enabled_step now s).0, inl tt)

Reenables-step : (e : Event) (s : Store) → Reenables e → enabled_of (happen e s) ≡ true
unfolding happen
Reenables-step (re_enabled now) s h = (re_enabled_step now s).1
Reenables-step (auth_failure now reason) s h = absurd h
Reenables-step (connected now) s h = absurd h
Reenables-step (tested now r) s h = absurd h
Reenables-step (service_tested now r) s h = absurd h

Fails-not_Reenables : {e : Event} → Fails e → ¬ Reenables e
Fails-not_Reenables by_method r = r
Fails-not_Reenables (by_test bad) r = r

Neutral-not_Reenables : {e : Event} → Neutral e → ¬ Reenables e
Neutral-not_Reenables by_service r = r

module _ (start : Store) (zero_count : count_of start ≡ 0) (enabled : enabled_of start ≡ true) where
  Streak-of_count : (h : List Event) (n : ℕ) → n ≤ count_of (after start h) → Streak n h
  unfolding after
  Streak-of_count h zero le = nothing
  Streak-of_count [] (suc n) le = absurd (omega arith)
  Streak-of_count (e ∷ h) (suc n) le = elim (kind e) [
    | inl f ↦ one_more f (Streak-of_count h n (omega (arith, Fails-step (after start h) f)))
    | inr (inl p) ↦
        passed p (Streak-of_count h (suc n) (omega (arith, Neutral-step (after start h) p)))
    | inr (inr r) ↦ absurd (omega (arith, (Resets-step (after start h) r).0))
  ]

  count_of-Streak : {h : List Event} {n : ℕ} → Streak n h → n ≤ count_of (after start h)
  unfolding after
  count_of-Streak nothing = omega arith
  count_of-Streak (one_more {n} {e} {h} f st) =
      omega (arith, Fails-step (after start h) f, count_of-Streak st)
  count_of-Streak (passed {n} {e} {h} p st) =
      omega (arith, Neutral-step (after start h) p, count_of-Streak st)

  stays_disabled :
      (e : Event) (s : Store)
      → ¬ Reenables e
      → enabled_of s ≡ false
      → enabled_of (happen e s) ≡ false
  stays_disabled e s keep off = elim (kind e) [
    | inl f ↦ ground (arith, Fails-step s f)
    | inr (inl p) ↦ ground (arith, Neutral-step s p)
    | inr (inr r) ↦ elim (Resets-step s r).1 [
      | inl again ↦ absurd (keep again)
      | inr same ↦ same ∙ off
    ]
  ]

  Tripped-of_disabled : (h : List Event) → enabled_of (after start h) ≡ false → Tripped h
  unfolding after
  Tripped-of_disabled [] off = cc
  Tripped-of_disabled (e ∷ h) off = elim (kind e) [
    | inl f ↦ elim (Bool-cases (leb 2 (count_of (after start h)))) [
      | inl two ↦ now_tripped f (Streak-of_count h 2 (leb→le _ _ two))
      | inr fewer ↦
          still_tripped (Fails-not_Reenables f)
            (Tripped-of_disabled h (ground (arith, Fails-step (after start h) f)))
    ]
    | inr (inl p) ↦
        still_tripped (Neutral-not_Reenables p)
          (Tripped-of_disabled h (ground (arith, Neutral-step (after start h) p)))
    | inr (inr r) ↦ elim (Resets-step (after start h) r).1 [
      | inl again ↦ cc (Reenables-step e (after start h) again)
      | inr same ↦
          still_tripped (λ again. cc (Reenables-step e (after start h) again))
            (Tripped-of_disabled h (sym same ∙ off))
    ]
  ]

  disabled_of_Tripped : {h : List Event} → Tripped h → enabled_of (after start h) ≡ false
  unfolding after
  disabled_of_Tripped (now_tripped {e} {h} f st) =
      ground (arith, Fails-step (after start h) f, count_of-Streak st)
  disabled_of_Tripped (still_tripped {e} {h} keep t) =
      stays_disabled e (after start h) keep (disabled_of_Tripped t)

  -- From an enabled connection without counted failures, after any history: the connection is
  -- disabled exactly when three failures of its credentials stood together, with at most connection
  -- tests of the service between them, and nobody has re-enabled it since.
  pub disabled_iff_Tripped : (h : List Event) → (enabled_of (after start h) ≡ false) ↔ Tripped h
  disabled_iff_Tripped h = (Tripped-of_disabled h, disabled_of_Tripped)
