-- ===== src/Sync/Bulk/Accounting.antt =====
-- Every product of a bulk push is counted once, whatever the adapter answers.
use bapp_connectors.Base.{
  Bool, Bool-cases, List, Option, Option-cases, String, [], ap, arith, false, inl, inr, is_empty,
  length, length-append, none, or_else, some, true, ℕ, ◌&&◌, ◌++◌, ◌+◌, ◌∷◌, ◌≡◌, ◌≢◌, number_key,
}
use bapp_connectors.Base.Dict.{Dict, get}
use bapp_connectors.Errors.{Exn}
use bapp_connectors.Sync.Dto.{
  BulkItemResult, BulkUpsertResult, Extra, Product, SyncError, SyncResult, accounted, fail,
  new_result,
}
use bapp_connectors.Sync.Counting.{Counts, fail-Counts}
use bapp_connectors.Sync.Adapter.{BulkUpsert, Matcher, error_of, match_remote}
use bapp_connectors.Sync.Bulk.{
  Split, absorb_both, absorb_bulk, absorb_from, absorb_item, batch_size_of, by_index, chunk_at,
  count_item, fail_all, item_error, keep_item, nth, pause_between, place, push_batch, push_batches,
  push_bulk, send_batch, send_or_skip, split_chunk, starts, store_id, store_meta, update_ids,
}
use bapp_connectors.Base.Int.{ℤ}
use bapp_connectors.Effect.{
  Action, Ensures-bind, Returns, Returns-bind, Returns-catch, Returns-weaken, pure, ◌>>=◌,
}
use bapp_connectors.Sync.Bulk.Batches.{batches_cut, joined}

fail_all-Counts :
    (e : Exn) (ps : List Product) (r : SyncResult) → Counts r (length ps) (fail_all e ps r)
unfolding fail_all
fail_all-Counts e [] r = omega arith
fail_all-Counts e (p ∷ ps) r =
    omega (arith, fail-Counts (error_of p e) r, fail_all-Counts e ps (fail (error_of p e) r))

count_item-Counts : (created : Bool) (r : SyncResult) → Counts r 1 (count_item created r)
unfolding count_item
count_item-Counts created r = ground arith

store_id-Counts : (local_id id : String) (r : SyncResult) → Counts r 0 (store_id local_id id r)
unfolding store_id
store_id-Counts local_id id r = ground arith

store_meta-Counts :
    (local_id : String) (x : Extra) (r : SyncResult) → Counts r 0 (store_meta local_id x r)
unfolding store_meta
store_meta-Counts local_id x r = ground arith

keep_item-Counts :
    (created : Bool) (ids : List String) (idx : ℕ) (p : Product) (item : BulkItemResult)
    (r : SyncResult)
    → Counts r 1 (keep_item created ids idx p item r)
keep_item-Counts created ids idx p item r =
    let counted = count_item created r in
    let id = or_else item.remote_id (nth ids idx) in
    let stored = store_id p.product_id id counted in
    unfold keep_item in
    omega (
      arith,
      count_item-Counts created r,
      store_id-Counts p.product_id id counted,
      store_meta-Counts p.product_id item.extra stored,
    )

module _ (created : Bool) (ids : List String) (idx : ℕ) (p : Product) (r : SyncResult) where
  absorb_failed :
      (o : Option BulkItemResult) (e : SyncError)
      → item_error p o ≡ some e
      → absorb_item created ids idx p o r ≡ fail e r
  unfolding absorb_item
  absorb_failed o e q = rw (q, absorb_item)

  missing_fails : item_error p none ≢ none
  unfolding item_error
  missing_fails q = cc

  absorb_found :
      (item : BulkItemResult)
      → item_error p (some item) ≡ none
      → absorb_item created ids idx p (some item) r ≡ keep_item created ids idx p item r
  unfolding absorb_item
  absorb_found item q = rw (q, absorb_item)

  absorb_kept :
      (o : Option BulkItemResult)
      → item_error p o ≡ none
      → Counts r 1 (absorb_item created ids idx p o r)
  absorb_kept none q = absurd (missing_fails q)
  absorb_kept (some item) q = rw (absorb_found item q) (keep_item-Counts created ids idx p item r)

  absorb_item-Counts : (o : Option BulkItemResult) → Counts r 1 (absorb_item created ids idx p o r)
  absorb_item-Counts o = elim (Option-cases (item_error p o)) [
    | inr (e, q) ↦ rw (absorb_failed o e q) (fail-Counts e r)
    | inl q ↦ absorb_kept o q
  ]

absorb_from-Counts :
    (created : Bool) (ids : List String) (d : Dict ℕ BulkItemResult) (idx : ℕ) (ps : List Product)
    (r : SyncResult)
    → Counts r (length ps) (absorb_from created ids d idx ps r)
unfolding absorb_from
absorb_from-Counts created ids d idx [] r = omega arith
absorb_from-Counts created ids d idx (p ∷ ps) r =
    let r' = absorb_item created ids idx p (get idx d) r in
    omega (
      arith,
      absorb_item-Counts created ids idx p r (get idx d),
      absorb_from-Counts created ids d (idx + 1) ps r',
    )

absorb_bulk-Counts :
    (created : Bool) (ids : List String) (items : List BulkItemResult) (ps : List Product)
    (r : SyncResult)
    → Counts r (length ps) (absorb_bulk created ids items ps r)
absorb_bulk-Counts created ids items ps r =
    unfold absorb_bulk in absorb_from-Counts created ids (by_index [] items) 0 ps r

absorb_both-Counts :
    (s : Split) (bulk : BulkUpsertResult) (r : SyncResult)
    → Counts r (length s.creates + length s.update_src) (absorb_both s bulk r)
absorb_both-Counts s bulk r =
    let r' = absorb_bulk true [] bulk.created s.creates r in
    unfold absorb_both in
    omega (
      arith,
      absorb_bulk-Counts true [] bulk.created s.creates r,
      absorb_bulk-Counts false (update_ids s.updates) bulk.updated s.update_src r',
    )

both_empty :
    {A B : Type 0} (xs : List A) (ys : List B)
    → (is_empty xs && is_empty ys) ≡ true
    → length xs + length ys ≡ 0
both_empty [] [] h = omega arith
both_empty [] (y ∷ ys) h = cc
both_empty (x ∷ xs) ys h = cc

-- A split keeps every product of its chunk.
abbrev Keeps : List Product → Split → Type 0
Keeps chunk s =
    (length s.creates + length s.update_src ≡ length chunk)
    × (length s.updates ≡ length s.update_src)

place-Keeps :
    (p : Product) (o : Option String) (chunk : List Product) (s : Split)
    → Keeps chunk s
    → Keeps (p ∷ chunk) (place p o s)
unfolding place
place-Keeps p none chunk s h = omega arith
place-Keeps p (some id) chunk s h = omega arith

module _ {ℓ} {W : Type ℓ} (m : Matcher W)
    (matches : (p : Product) (w : W) → Returns (λ _. Unit) (match_remote m p w).0) where
  split_chunk-Keeps :
      (chunk : List Product) (w : W) → Returns (Keeps chunk) (split_chunk m chunk w).0
  unfolding split_chunk
  split_chunk-Keeps [] w = omega arith
  split_chunk-Keeps (p ∷ chunk) w =
      Returns-bind (Keeps (p ∷ chunk))
        (λ found. do rest ← split_chunk m chunk; pure (place p found rest)) (λ _. Unit)
        (match_remote m p) w (matches p w)
        (λ found w' _.
          Returns-bind (Keeps (p ∷ chunk)) (λ rest. pure (place p found rest)) (Keeps chunk)
            (split_chunk m chunk) w' (split_chunk-Keeps chunk w')
            (λ rest w'' h. place-Keeps p found chunk rest h))

  module _ (u : BulkUpsert W) (sleep : ℤ → W → W) (pause : ℤ) where
    send_batch-Counts :
        (first : Bool) (s : Split) (r : SyncResult) (w : W)
        → Returns
            (Counts r (length s.creates + length s.update_src))
            (send_batch u sleep pause first s r w).0
    send_batch-Counts first s r w =
        let n = length s.creates + length s.update_src in
        let body : Action W SyncResult = (do
          bulk ← u.bulk_upsert_products s.creates s.updates
          pure (absorb_both s bulk r)) in
        let all = s.creates ++ s.update_src in
        unfold send_batch in
        Returns-catch (Counts r n) (λ e. pure (fail_all e all r)) body
          (pause_between u sleep pause first w)
          (Ensures-bind (Counts r n) (λ bulk. pure (absorb_both s bulk r))
            (u.bulk_upsert_products s.creates s.updates) (pause_between u sleep pause first w)
            (λ bulk w'. absorb_both-Counts s bulk r))
          (λ e w'. omega (arith, fail_all-Counts e all r, length-append s.creates s.update_src))

    send_or_skip-Counts :
        (first : Bool) (s : Split) (r : SyncResult) (chunk : List Product) (w : W)
        → Keeps chunk s
        → Returns
            (λ next. Counts r (length chunk) next.1)
            (send_or_skip u sleep pause first r s w).0
    unfolding send_or_skip
    send_or_skip-Counts first s r chunk w h =
        elim (Bool-cases (is_empty s.creates && is_empty s.updates)) [
          | inl q ↦ rw q (omega (arith, both_empty s.creates s.updates q))
          | inr q ↦ rw q (
              Returns-bind (λ next. Counts r (length chunk) next.1) (λ r'. pure (false, r'))
                (Counts r (length s.creates + length s.update_src))
                (send_batch u sleep pause first s r) w (send_batch-Counts first s r w)
                (λ r' w' c. omega arith))
        ]

    push_batch-Counts :
        (first : Bool) (r : SyncResult) (chunk : List Product) (w : W)
        → Returns
            (λ next. Counts r (length chunk) next.1)
            (push_batch u sleep pause m first r chunk w).0
    unfolding push_batch
    push_batch-Counts first r chunk w =
        Returns-bind (λ next. Counts r (length chunk) next.1) (send_or_skip u sleep pause first r)
          (Keeps chunk) (split_chunk m chunk) w (split_chunk-Keeps chunk w)
          (λ s w' h. send_or_skip-Counts first s r chunk w' h)

    push_batches-Counts :
        (size : ℕ) (products : List Product) (l : List ℕ) (first : Bool) (r : SyncResult) (w : W)
        → Returns
            (Counts r (length (joined products size l)))
            (push_batches u sleep pause m size products l first r w).0
    unfolding push_batches joined
    push_batches-Counts size products [] first r w = omega arith
    push_batches-Counts size products (start ∷ l) first r w =
        let chunk = chunk_at products size start in
        let rest = joined products size l in
        Returns-bind (Counts r (length (chunk ++ rest)))
          (λ next. push_batches u sleep pause m size products l next.0 next.1)
          (λ next. Counts r (length chunk) next.1) (push_batch u sleep pause m first r chunk) w
          (push_batch-Counts first r chunk w)
          (λ next w' c.
            Returns-weaken (Counts next.1 (length rest)) _ _
              (λ s later. omega (arith, length-append chunk rest))
              (push_batches-Counts size products l next.0 next.1 w'))

    -- When the matcher never raises, a bulk push always returns a result, whatever the adapter
    -- answers or raises: it counts every product exactly once, as created, updated, skipped or
    -- failed, and it lists one error for each failure.
    pub push_bulk_accounts :
        (batch_size : ℕ) (products : List Product) (w : W)
        → Returns
            (λ r. (accounted r ≡ length products) × (length r.errors ≡ r.failed))
            (push_bulk u sleep pause m batch_size products w).0
    unfolding push_bulk
    push_bulk_accounts batch_size products w =
        let size = batch_size_of u batch_size in
        let all = starts (length products) size in
        Returns-weaken (Counts new_result (length (joined products size all))) _ _
          (λ r h. omega (arith, ap (λ l. length l) (batches_cut u batch_size products).0))
          (push_batches-Counts size products all true new_result w)
