-- ===== src/Django/Webhooks/Duplicates.antt =====
-- A webhook that arrives again at services/webhook.py.
use bapp_connectors.Django.Webhooks.Receipt.{
  Marked, exists-append, exists-set_duplicate, first-Marked, length-set_duplicate,
}
use bapp_connectors.Django.Webhooks.{
  EventRow, Parser, Received, Table, announce, create, duplicate, exists, first, found_again,
  is_duplicate, new_row, normalise, persisted, receive, receive_dispatched, received, record_event,
  refuse, set_duplicate,
}
use bapp_connectors.Base.{
  Bool, Bool-cases, Option, String, [], arith, false, inl, inr, length, refl, some, true, ℕ, ◌++◌,
  ◌∙◌, ◌∷◌, ◌≡◌, ◌⊎◌, string_key,
}
use bapp_connectors.Effect.{Outcome, ok, raise}
use bapp_connectors.Webhooks.Signatures.{Platform}
use bapp_connectors.Webhooks.Dispatcher.{Request, WebhookEvent, dispatch}
use bapp_connectors.Base.Dict.{same_refl}
use bapp_connectors.Errors.{Exn}

-- The answer is a row with the key, the table has that key, and one of two things has happened: a row
-- with the key was there and the first such is a duplicate now, in the table too, where the others
-- stay; or the row is new, the last of the table, and has been signalled.
abbrev pub Recorded {ℓ} : {J : Type ℓ} → String → Table J → Outcome (Received J) × Table J → Type ℓ
Recorded {J = J} key t (o, t') =
    (row : EventRow J) × (o ≡ ok (persisted row))
    × (row.idempotency_key ≡ key)
    × (exists key t'.rows ≡ true)
    × (((exists key t.rows ≡ true)
          × Marked key t.rows row t'.rows
          × (row.status ≡ duplicate)
          × (length t'.rows ≡ length t.rows)
          × (t'.sent ≡ t.sent))
        ⊎ ((exists key t.rows ≡ false)
            × (row.status ≡ received)
            × (t'.rows ≡ t.rows ++ row ∷ [])
            × (t'.sent ≡ t.sent ++ key ∷ [])))

module _ {ℓ} {B J : Type ℓ} (p : Platform B J) (r : Request B) (connection : Option ℕ)
    (parser : Option (Parser B)) where
  module _ (event : WebhookEvent J) (t : Table J) where
    found_again_old :
        (row : EventRow J)
        → first event.idempotency_key t.rows ≡ some row
        → found_again p true event t ≡ (
          ok (persisted (record row { status = duplicate })),
          record t { rows = set_duplicate event.idempotency_key t.rows },
        )
    unfolding found_again
    found_again_old row e = rw (e, found_again) refl

    record_event_old :
        exists event.idempotency_key t.rows ≡ true
        → record_event p true r connection event t ≡ found_again p true event t
    unfolding record_event is_duplicate
    record_event_old old = rw old refl

    record_event_new :
        exists event.idempotency_key t.rows ≡ false
        → let row = new_row p true r connection event in
          record_event p true r connection event t ≡ (
            ok (persisted row),
            record { rows = t.rows ++ row ∷ []; sent = t.sent ++ event.idempotency_key ∷ [] },
          )
    unfolding record_event is_duplicate create new_row announce
    record_event_new new = ground arith

    record_event-Recorded :
        Recorded event.idempotency_key t (record_event p true r connection event t)
    unfolding new_row
    record_event-Recorded =
        let key = event.idempotency_key in
        elim (Bool-cases (exists key t.rows)) [
          | inl old ↦
              let (row, e, k, marked) = first-Marked key t.rows old in
              rw (record_event_old old) (
                rw (found_again_old row e) (
                  record row { status = duplicate },
                  refl,
                  k,
                  exists-set_duplicate key key t.rows ∙ old,
                  inl (old, marked, refl, length-set_duplicate key t.rows, refl),
                ))
          | inr new ↦
              let row = new_row p true r connection event in
              rw (record_event_new new) (
                row,
                refl,
                refl,
                ground (arith, exists-append key t.rows row, same_refl key),
                inr (new, refl, refl, refl),
              )
        ]

  receive_ok :
      (has_model : Bool) (uuid : String) (t : Table J) (event : WebhookEvent J)
      → dispatch p r ≡ ok event
      → receive p has_model r connection parser uuid t
        ≡ record_event p has_model r connection (normalise p has_model parser r event) t
  unfolding receive receive_dispatched
  receive_ok has_model uuid t event h = rw h refl

  pub receive_raises :
      (has_model : Bool) (uuid : String) (t : Table J) (e : Exn)
      → dispatch p r ≡ raise e
      → receive p has_model r connection parser uuid t
        ≡ (raise e, refuse p has_model r connection uuid e t)
  unfolding receive receive_dispatched
  receive_raises has_model uuid t e h = rw h refl

  -- With a model, a webhook that the dispatcher accepts is always answered with a row that has its
  -- key, and after it the table has the key. The row is new, and signalled once, exactly where the
  -- table had no row with the key; else the first row with it is a duplicate now, in the table as in the
  -- answer, every other row stays, none is added and nothing is signalled.
  pub receive-Recorded :
      (uuid : String) (t : Table J) (event : WebhookEvent J)
      → dispatch p r ≡ ok event
      → Recorded
          (normalise p true parser r event).idempotency_key
          t
          (receive p true r connection parser uuid t)
  receive-Recorded uuid t event h =
      rw (receive_ok true uuid t event h)
        (record_event-Recorded (normalise p true parser r event) t)

  -- A webhook that the dispatcher accepts and that is received twice adds nothing the second time: no
  -- row, no signal, whatever the table held, and the row that is returned is marked as a duplicate.
  pub receive_again :
      (uuid again : String) (t : Table J) (event : WebhookEvent J)
      → dispatch p r ≡ ok event
      → let t' = (receive p true r connection parser uuid t).1 in
        let (o, t'') = receive p true r connection parser again t' in
        (row : EventRow J) × (o ≡ ok (persisted row))
        × (row.status ≡ duplicate)
        × (length t''.rows ≡ length t'.rows)
        × (t''.sent ≡ t'.sent)
  receive_again uuid again t event h =
      let (_, _, _, there, _) = receive-Recorded uuid t event h in
      let t' = (receive p true r connection parser uuid t).1 in
      let (row, e, _, _, cases) = receive-Recorded again t' event h in
      elim cases [
        | inl (_, _, status, rows, sent) ↦ (row, e, status, rows, sent)
        | inr (new, _, _, _) ↦ cc
      ]
