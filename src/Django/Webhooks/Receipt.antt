-- ===== src/Django/Webhooks/Receipt.antt =====
-- The table of services/webhook.py: its rows and their keys, and the row that is set to duplicate.
use bapp_connectors.Base.{
  Bool-cases, List, String, [], ap, arith, false, inl, inr, length, refl, some, string_key, true,
  ◌++◌, ◌==◌, ◌||◌, ◌∷◌, ◌≡◌,
}
use bapp_connectors.Django.Webhooks.{EventRow, duplicate, exists, first, set_duplicate}

module _ {ℓ} {J : Type ℓ} where
  -- The first row with the key is the one that is given, set to `duplicate`; every other row stays.
  abbrev pub Marked : String → List (EventRow J) → EventRow J → List (EventRow J) → Type ℓ
  Marked key rows row rows' =
      (before after : List (EventRow J)) × (old : EventRow J) × (rows ≡ before ++ old ∷ after)
      × (exists key before ≡ false)
      × (old.idempotency_key ≡ key)
      × (row ≡ record old { status = duplicate })
      × (rows' ≡ before ++ row ∷ after)

  pub exists-append :
      (key : String) (rows : List (EventRow J)) (row : EventRow J)
      → exists key (rows ++ row ∷ []) ≡ (exists key rows || row.idempotency_key == key)
  unfolding exists
  exists-append key [] row = ground arith
  exists-append key (x ∷ rows) row = ground (arith, exists-append key rows row)

  pub exists-set_duplicate :
      (key j : String) (rows : List (EventRow J))
      → exists key (set_duplicate j rows) ≡ exists key rows
  unfolding exists set_duplicate
  exists-set_duplicate key j [] = refl
  exists-set_duplicate key j (x ∷ rows) = ground (arith, exists-set_duplicate key j rows)

  pub length-set_duplicate :
      (j : String) (rows : List (EventRow J)) → length (set_duplicate j rows) ≡ length rows
  unfolding set_duplicate
  length-set_duplicate j [] = refl
  length-set_duplicate j (x ∷ rows) = ground (arith, length-set_duplicate j rows)

  pub first-Marked :
      (key : String) (rows : List (EventRow J))
      → exists key rows ≡ true
      → (row : EventRow J) × (first key rows ≡ some row)
        × (row.idempotency_key ≡ key)
        × Marked key rows (record row { status = duplicate }) (set_duplicate key rows)
  unfolding exists first set_duplicate
  first-Marked key [] h = cc
  first-Marked key (x ∷ rows) h = elim (Bool-cases (x.idempotency_key == key)) [
    | inl here ↦
        let k = (string_key.same_iff x.idempotency_key key).0 here in
        (x, rw here refl, k, ([], rows, x, refl, refl, k, refl, rw here refl))
    | inr there ↦
        let (row, e, k, m) = first-Marked key rows (ground arith) in
        let (before, after, old, split, unseen, j, marked, rest) = m in
        (
          row,
          rw there e,
          k,
          (
            x ∷ before,
            after,
            old,
            ap (λ l. x ∷ l) split,
            ground arith,
            j,
            marked,
            rw there (ap (λ l. x ∷ l) rest),
          ),
        )
  ]
