-- ===== src/Sync/Counting.antt =====
-- How the counters of a sync result (core/sync/dto.py) move.
use bapp_connectors.Base.{[], arith, length, length-append, ℕ, ◌+◌, ◌∷◌, ◌≡◌}
use bapp_connectors.Sync.Dto.{SyncError, SyncResult, accounted, fail}

-- `r` counts `n` more products than `s`, and has one error for each failure.
abbrev pub Counts : SyncResult → ℕ → SyncResult → Type 0
Counts s n r =
    (accounted r ≡ accounted s + n) × (length r.errors + s.failed ≡ length s.errors + r.failed)

pub fail-Counts : (e : SyncError) (r : SyncResult) → Counts r 1 (fail e r)
unfolding fail
fail-Counts e r = omega (arith, length-append r.errors (e ∷ []))
