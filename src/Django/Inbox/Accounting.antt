-- ===== src/Django/Inbox/Accounting.antt =====
-- Every message has its record, and the records tell what was done to the mailbox.
use bapp_connectors.Base.{
  All, Bool, List, Option, String, [], ap, arith, false, if◌then◌else◌, length, none, refl, some,
  true, truthy, ◌&&◌, ◌++◌, ◌∷◌, ◌≡◌, string_key,
}
use mathlib.Core.List.{append-nil, append_assoc}
use bapp_connectors.Errors.{text_of}
use bapp_connectors.Effect.{Action, Outcome, ok, raise, resume}
use bapp_connectors.Django.Inbox.{
  Email, InboxAction, InboxActionType, Mailbox, PollRecord, PollResult, Reply, applied_or_error,
  apply, apply_action, delete, first_action, handle_email, mark_read, move, no_action, poll,
  poll_all, poll_fetched, poll_one,
}

-- A call of a method that changes the mailbox: the message's id, the other arguments but the folder that
-- is polled, and the text of the error where it raised.
pub data Call : Type 0 where
  deleted : String → Option String → Call
  moved : String → String → Option String → Call
  marked : String → Bool → Option String → Call

-- The calls that a record tells of: one where it has an action that is one, of the kind of that action,
-- on the record's message; it returned where the action was applied, else it raised the record's error.
abbrev pub call_of : String → Option String → Option InboxAction → List Call
call_of id failure none = []
call_of id failure (some act) = elim act.type_ [
  | no_action ↦ []
  | delete ↦ deleted id failure ∷ []
  | move ↦ moved id act.folder failure ∷ []
  | mark_read ↦ marked id act.read failure ∷ []
]

abbrev failure_of : Bool × String → Option String
failure_of (applied, error) = if applied then none else some error

abbrev pub called : PollRecord → List Call
called r = call_of r.email.message_id (if r.applied then none else some r.error) r.action

abbrev pub calls_told : List PollRecord → List Call
calls_told [] = []
calls_told (r ∷ records) = called r ++ calls_told records

abbrev is_none {ℓ} : {A : Type ℓ} → Option A → Bool
is_none none = true
is_none (some _) = false

-- An applied action is there, and went without an error.
abbrev pub IsFair : PollRecord → Type 0
IsFair r = (r.applied && is_none r.action ≡ false) × (r.applied && truthy r.error ≡ false)

-- A mailbox and the world with a log of the calls.
abbrev pub Log : Type 0 → Type 0
Log W = W × List Call

abbrev pub unlogged : {A W : Type 0} → A × W → List Call → A × Log W
unlogged (x, w) log = (x, (w, log))

abbrev pub note :
    {W : Type 0} → (Option String → Call) → Outcome Bool × W → List Call → Outcome Bool × Log W
note call (ok b, w) log = (ok b, (w, log ++ call none ∷ []))
note call (raise e, w) log = (raise e, (w, log ++ call (some (text_of e)) ∷ []))

module _ {W : Type 0} (a : Mailbox W) (send : Email → String → W → List Reply × W)
    (folder : String) where
  -- the same mailbox, which logs the calls that change it
  abbrev pub logged : Mailbox (Log W)
  logged = record {
    get_message = λ id f s. unlogged (a.get_message id f s.0) s.1;
    delete_message = λ id f s. note (deleted id) (a.delete_message id f s.0) s.1;
    move_message = λ id target f s. note (moved id target) (a.move_message id target f s.0) s.1;
    mark_read_message =
        λ id read f s. note (marked id read) (a.mark_read_message id read f s.0) s.1;
  }

  abbrev pub send_logged : Email → String → Log W → List Reply × Log W
  send_logged email f s = unlogged (send email f s.0) s.1

  abbrev pub with_log : PollRecord × W → List Call → PollRecord × Log W
  with_log (r, w) log = (r, (w, log ++ called r))

  applied_or_error-note :
      (call : Option String → Call) (result : Outcome Bool × W) (log : List Call)
      → let (told, w') = applied_or_error result in
        applied_or_error (note call result log) ≡ (told, (w', log ++ call (failure_of told) ∷ []))
  unfolding applied_or_error
  applied_or_error-note call (ok b, w) log = refl
  applied_or_error-note call (raise e, w) log = refl

  apply_action-logged :
      (email : Email) (kind : InboxActionType) (target : String) (read : Bool) (w : W)
      (log : List Call)
      → let act : InboxAction = record { type_ = kind; folder = target; read = read } in
        let (told, w') = apply_action a send folder email act w in
        apply_action logged send_logged folder email act (w, log)
        ≡ (told, (w', log ++ call_of email.message_id (failure_of told) (some act)))
  unfolding apply_action
  apply_action-logged email no_action target read w log = rw (append-nil log) refl
  apply_action-logged email delete target read w log =
      applied_or_error-note (deleted email.message_id) (a.delete_message email.message_id folder w)
        log
  apply_action-logged email move target read w log =
      applied_or_error-note (moved email.message_id target)
        (a.move_message email.message_id target folder w) log
  apply_action-logged email mark_read target read w log =
      applied_or_error-note (marked email.message_id read)
        (a.mark_read_message email.message_id read folder w) log

  apply-logged :
      (email : Email) (act : Option InboxAction) (w : W) (log : List Call)
      → let (told, w') = apply a send folder email act w in
        apply logged send_logged folder email act (w, log)
        ≡ (told, (w', log ++ call_of email.message_id (failure_of told) act))
  unfolding apply
  apply-logged email none w log = rw (append-nil log) refl
  apply-logged email (some act) w log =
      apply_action-logged email act.type_ act.folder act.read w log

  handle_email-logged :
      (summary : Email) (result : Outcome Email × W) (log : List Call)
      → handle_email logged send_logged folder summary (unlogged result log)
        ≡ with_log (handle_email a send folder summary result) log
  unfolding handle_email
  handle_email-logged summary (raise e, w) log = rw (append-nil log) refl
  handle_email-logged summary (ok email, w) log =
      let (replies, sent) = send email folder w in
      rw (apply-logged email (first_action replies) sent log) refl

  poll_all-logged :
      (summaries : List Email) (w : W) (log : List Call)
      → let (records, w') = poll_all a send folder summaries w in
        poll_all logged send_logged folder summaries (w, log)
        ≡ (records, (w', log ++ calls_told records))
  unfolding poll_all poll_one
  poll_all-logged [] w log = rw (append-nil log) refl
  poll_all-logged (summary ∷ summaries) w log =
      let (first, w') = poll_one a send folder summary w in
      rw
        (
          handle_email-logged summary (a.get_message summary.message_id folder w) log,
          poll_all-logged summaries w' (log ++ called first),
        )
        (ap
          (λ l. (
            first ∷ (poll_all a send folder summaries w').0,
            ((poll_all a send folder summaries w').1, l),
          ))
          (append_assoc log (called first) _))

  abbrev FairTold : Option InboxAction → Bool × String → Type 0
  FairTold act (applied, error) =
      (applied && is_none act ≡ false) × (applied && truthy error ≡ false)

  applied_or_error-FairTold :
      (act : InboxAction) (result : Outcome Bool × W)
      → FairTold (some act) (applied_or_error result).0
  unfolding applied_or_error
  applied_or_error-FairTold act (ok b, w) = (refl, refl)
  applied_or_error-FairTold act (raise e, w) = (refl, refl)

  apply_action-FairTold :
      (email : Email) (act : InboxAction) (kind : InboxActionType) (w : W)
      → act.type_ ≡ kind
      → FairTold (some act) (apply_action a send folder email act w).0
  unfolding apply_action
  apply_action-FairTold email act no_action w e = rw e (refl, refl)
  apply_action-FairTold email act delete w e = rw e (applied_or_error-FairTold act _)
  apply_action-FairTold email act move w e = rw e (applied_or_error-FairTold act _)
  apply_action-FairTold email act mark_read w e = rw e (applied_or_error-FairTold act _)

  apply-FairTold :
      (email : Email) (act : Option InboxAction) (w : W)
      → FairTold act (apply a send folder email act w).0
  unfolding apply
  apply-FairTold email none w = (refl, refl)
  apply-FairTold email (some act) w = apply_action-FairTold email act act.type_ w refl

  handle_email-IsFair :
      (summary : Email) (result : Outcome Email × W)
      → IsFair (handle_email a send folder summary result).0
  unfolding handle_email
  handle_email-IsFair summary (raise e, w) = (refl, refl)
  handle_email-IsFair summary (ok email, w) =
      let (replies, sent) = send email folder w in apply-FairTold email (first_action replies) sent

  poll_all-IsFair :
      (summaries : List Email) (w : W)
      → let records = (poll_all a send folder summaries w).0 in
        (length records ≡ length summaries) × All IsFair records
  unfolding poll_all poll_one
  poll_all-IsFair [] w = (refl, tt)
  poll_all-IsFair (summary ∷ summaries) w =
      let (lengths, fair) = poll_all-IsFair summaries (poll_one a send folder summary w).1 in
      (omega (arith, lengths), (handle_email-IsFair summary _, fair))

  -- What a poll gives for what `fetch_messages` gave, and what it gives where the calls are logged.
  abbrev pub Polled :
      Outcome (List Email) × W → Outcome PollResult × W → Outcome PollResult × Log W → Type 0
  Polled (raise e, w) polled counted = (polled ≡ (raise e, w)) × (counted ≡ (raise e, (w, [])))
  Polled (ok summaries, w) (raise e, w') counted = ⊥
  Polled (ok summaries, w) (ok r, w') counted =
      (r.fetched ≡ length summaries)
      × (length r.records ≡ length summaries)
      × All IsFair r.records
      × (counted ≡ (ok r, (w', calls_told r.records)))

  poll_fetched-Polled :
      (fetched : Outcome (List Email) × W)
      → Polled fetched
          (resume (poll_fetched a send folder) fetched)
          (resume (poll_fetched logged send_logged folder) (unlogged fetched []))
  unfolding poll_fetched
  poll_fetched-Polled (raise e, w) = (refl, refl)
  poll_fetched-Polled (ok summaries, w) =
      let (lengths, fair) = poll_all-IsFair summaries w in
      (refl, lengths, fair, rw (poll_all-logged summaries w []) refl)

  -- A poll ends with a result whenever the messages are fetched, whatever else raises, and it has one
  -- record for each message. Logging the calls that delete, move or mark a message changes nothing else,
  -- and the log is exactly what the records tell, in their order: for a record with an action to
  -- delete, to move or to mark, one call of that kind on the record's message, which returned where the
  -- record says that the action was applied and raised the record's error where not; for any other
  -- record no call. An applied action is there, and its record has no error.
  pub poll-Polled :
      (fetch_messages : Action W (List Email)) (w : W)
      → Polled
          (fetch_messages w)
          (poll a send folder fetch_messages w)
          (poll logged send_logged folder (λ s. unlogged (fetch_messages s.0) s.1) (w, []))
  unfolding poll
  poll-Polled fetch_messages w = poll_fetched-Polled (fetch_messages w)
