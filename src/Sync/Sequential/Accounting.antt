-- ===== src/Sync/Sequential/Accounting.antt =====
-- Every product of a sequential push is counted once, whatever the adapter does.
use bapp_connectors.Base.{List, Option, String, [], arith, length, none, some, suc, ◌∷◌, ◌≡◌}
use bapp_connectors.Effect.{
  Action, Ensures, Ensures-bind, Returns, Returns-bind, Returns-catch, Returns-weaken, pure, ◌>>=◌,
}
use bapp_connectors.Sync.Dto.{Product, SyncResult, accounted, fail, new_result}
use bapp_connectors.Sync.Counting.{Counts, fail-Counts}
use bapp_connectors.Sync.Adapter.{Matcher, ShopAdapter, error_of, match_remote}
use bapp_connectors.Sync.Sequential.{
  count_created, create_or_skip, push_from, push_matched, push_one, push_sequential, update_remote,
}

module _ {ℓ} {W : Type ℓ} (a : ShopAdapter W) where
  count_created-Counts :
      (r : SyncResult) (p : Product) (o : Option Product) → Counts r 1 (count_created a r p o)
  unfolding count_created
  count_created-Counts r p o = ground arith

  create_or_skip-Counts :
      (o : Option (Product → Action W (Option Product))) (r : SyncResult) (p : Product) (w : W)
      → Ensures (Counts r 1) (create_or_skip a o r p w).0
  unfolding create_or_skip
  create_or_skip-Counts none r p w = omega arith
  create_or_skip-Counts (some create) r p w =
      Ensures-bind (Counts r 1) _ (create p) w (λ created w'. count_created-Counts r p created)

  push_matched-Counts :
      (r : SyncResult) (p : Product) (o : Option String) (w : W)
      → Ensures (Counts r 1) (push_matched a r p o w).0
  unfolding push_matched
  push_matched-Counts r p none w = create_or_skip-Counts a.create_product r p w
  push_matched-Counts r p (some id) w =
      Ensures-bind (Counts r 1) _ (update_remote a p id) w (λ _ w'. omega arith)

  push_one-Counts :
      (m : Matcher W) (r : SyncResult) (p : Product) (w : W)
      → Returns (Counts r 1) (push_one a m r p w).0
  unfolding push_one
  push_one-Counts m r p w =
      let body : Action W SyncResult = (do found ← match_remote m p; push_matched a r p found) in
      Returns-catch (Counts r 1) (λ e. pure (fail (error_of p e) r)) body w
        (Ensures-bind (Counts r 1) (push_matched a r p) (match_remote m p) w
          (push_matched-Counts r p))
        (λ e w'. fail-Counts (error_of p e) r)

  push_from-Counts :
      (m : Matcher W) (r : SyncResult) (products : List Product) (w : W)
      → Returns (Counts r (length products)) (push_from a m r products w).0
  unfolding push_from
  push_from-Counts m r [] w = omega arith
  push_from-Counts m r (p ∷ products) w =
      Returns-bind (Counts r (suc (length products))) (λ r'. push_from a m r' products) (Counts r 1)
        (push_one a m r p) w (push_one-Counts m r p w)
        (λ r' w' one.
          Returns-weaken (Counts r' (length products)) _ _ (λ s later. omega arith)
            (push_from-Counts m r' products w'))

  -- A sequential push always returns a result: it counts every product exactly once, as created,
  -- updated, skipped or failed, and it lists one error for each failure.
  pub push_sequential_accounts :
      (m : Matcher W) (products : List Product) (w : W)
      → Returns
          (λ r. (accounted r ≡ length products) × (length r.errors ≡ r.failed))
          (push_sequential a m products w).0
  unfolding push_sequential
  push_sequential_accounts m products w =
      Returns-weaken (Counts new_result (length products)) _ _ (λ r h. omega arith)
        (push_from-Counts m new_result products w)
