-- ===== src/Django/Sync/Endings.antt =====
-- How a sync of services/sync.py ends.
use bapp_connectors.Base.{
  Bool, Option, String, [], ap, inl, inr, length, or_else, prefix, refl, sym, true, ◌++◌, ◌+◌, ◌∙◌,
  ◌∷◌, ◌≡◌, ◌⊎◌,
}
use bapp_connectors.Errors.{text_of}
use bapp_connectors.Effect.{Action, Outcome, ok, raise, recover, resume, ◌>>=◌}
use bapp_connectors.Django.Sync.{
  Paginated, Source, SyncResult, World, complete, fetch, full_resync, incremental_sync,
  keep_outside, note_failure, result_of, within,
}
use bapp_connectors.Django.SyncState.{
  completed, failed, mark_completed, mark_failed, mark_running, reset_cursor,
}

-- A sync that went through: the state moves to the page's cursor if it has one, forgets its errors,
-- and the result is signalled once.
abbrev pub WentThrough {ℓ} : {W : Type ℓ} → Bool → World W → SyncResult → World W → Type 0
WentThrough full s r s' =
    (r.errors ≡ [])
    × (s'.state.status ≡ completed)
    × (s'.state.error_count ≡ 0)
    × (s'.state.last_error ≡ "")
    × (s'.state.cursor ≡ or_else r.cursor s.state.cursor)
    × (s'.sent ≡ s.sent ++ record { sync_result = r; is_full_resync = full } ∷ [])

-- A sync that failed: the cursor stays, one more error is counted, and nothing is signalled.
abbrev pub WentWrong {ℓ} : {W : Type ℓ} → World W → SyncResult → World W → Type 0
WentWrong s r s' =
    ((message : String) × (r.errors ≡ message ∷ []) × (s'.state.last_error ≡ prefix 2000 message))
    × (r.items_fetched ≡ 0)
    × (r.cursor ≡ "")
    × (s'.state.status ≡ failed)
    × (s'.state.error_count ≡ s.state.error_count + 1)
    × (s'.state.cursor ≡ s.state.cursor)
    × (s'.sent ≡ s.sent)

abbrev pub Ends {ℓ} : {W : Type ℓ} → Bool → World W → Outcome SyncResult × World W → Type ℓ
Ends {W = W} full s o =
    (r : SyncResult) × (s' : World W) × (o ≡ (ok r, s'))
    × (WentThrough full s r s' ⊎ WentWrong s r s')

module _ {ℓ} {W A I : Type ℓ} (c : Source W A I) where
  -- what follows the fetch
  page-Ends :
      (full : Bool) (s : World W) (o : Outcome (Paginated I)) (w : W)
      → Ends full s (
          recover (note_failure c) (
            resume
              (complete c full)
              (keep_outside (record s { state = mark_running (c.now s.outside) s.state }) (o, w))))
  unfolding complete note_failure mark_running mark_completed mark_failed result_of
  page-Ends full s (ok page) w = (_, _, refl, inl (refl, refl, refl, refl, refl, refl))
  page-Ends full s (raise e) w =
      (_, _, refl, inr ((text_of e, refl, refl), refl, refl, refl, refl, refl, refl))

  adapter-Ends :
      (resource_type : String) (fetch_fn : Option (A → String → Action W (Paginated I)))
      (full : Bool) (s : World W) (o : Outcome A) (w : W)
      → Ends full s (
          recover (note_failure c) (
            resume
              (λ adapter.
                within (fetch c fetch_fn resource_type s.state.cursor adapter) >>= complete c full)
              (keep_outside (record s { state = mark_running (c.now s.outside) s.state }) (o, w))))
  unfolding within note_failure mark_running mark_failed
  adapter-Ends resource_type fetch_fn full s (ok adapter) w =
      let (o, w') = fetch c fetch_fn resource_type s.state.cursor adapter w in page-Ends full s o w'
  adapter-Ends resource_type fetch_fn full s (raise e) w =
      (_, _, refl, inr ((text_of e, refl, refl), refl, refl, refl, refl, refl, refl))

  -- A sync always returns, whatever the adapter raises, and never leaves its state running. Either it
  -- went through, or it failed with one error in its result.
  pub incremental_sync-Ends :
      (resource_type : String) (fetch_fn : Option (A → String → Action W (Paginated I)))
      (full : Bool) (s : World W)
      → Ends full s (incremental_sync c resource_type fetch_fn full s)
  unfolding incremental_sync within
  incremental_sync-Ends resource_type fetch_fn full s =
      let (o, w) = c.get_adapter s.outside in adapter-Ends resource_type fetch_fn full s o w

or_else_empty : (x : String) → or_else x "" ≡ x
or_else_empty String.[] = refl
or_else_empty (String.◌∷◌ ch x) = refl

module _ {ℓ} {W A I : Type ℓ} (c : Source W A I) where
  -- A full resync always returns, and the cursor that it leaves is the one in its result: the old
  -- cursor is gone even where the sync failed, and the result then has one error.
  pub full_resync_cursor :
      (resource_type : String) (fetch_fn : Option (A → String → Action W (Paginated I)))
      (s : World W)
      → (r : SyncResult) × (s' : World W) × (full_resync c resource_type fetch_fn s ≡ (ok r, s'))
        × (s'.state.cursor ≡ r.cursor)
        × ((s'.state.status ≡ completed) ⊎ ((s'.state.status ≡ failed) × (length r.errors ≡ 1)))
  unfolding full_resync reset_cursor
  full_resync_cursor resource_type fetch_fn s =
      let reset = record s { state = reset_cursor (c.now s.outside) s.state } in
      let (r, s', e, ending) = incremental_sync-Ends c resource_type fetch_fn true reset in
      elim ending [
        | inl h ↦ (r, s', e, h.4 ∙ or_else_empty r.cursor, inl h.1)
        | inr h ↦ (r, s', e, h.5 ∙ sym h.2, inr (h.3, ap (λ l. length l) h.0.1))
      ]
