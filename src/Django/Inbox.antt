-- ===== src/Django/Inbox.antt =====
-- packages/django/src/django_bapp_connectors/services/inbox.py. Of a message, its id and its subject;
-- the adapter's methods and the sending of `email_received` are arguments, over a world `W` of mailboxes.
pub mod Accounting
pub mod Choice
pub mod Tests
use bapp_connectors.Base.{
  Bool, List, Option, String, [], false, length, none, some, true, ℕ, ◌∷◌, string_key,
}
use bapp_connectors.Errors.{Exn, text_of}
use bapp_connectors.Effect.{Action, Outcome, ok, raise, ◌>>=◌}

pub data InboxActionType : Type 0 where
  no_action delete move mark_read : InboxActionType

pub record InboxAction : Type 0 where
  pub type_ : InboxActionType
  pub folder : String
  pub read : Bool

pub record Email : Type 0 where
  pub message_id : String
  pub subject : String

-- What a receiver of the signal answers, or raises.
pub data Reply : Type 0 where
  raised : Exn → Reply
  answer : InboxAction → Reply
  other_value : Reply

pub record PollRecord : Type 0 where
  pub email : Email
  pub action : Option InboxAction
  pub applied : Bool
  pub error : String

pub record PollResult : Type 0 where
  pub folder : String
  pub fetched : ℕ
  pub records : List PollRecord

-- The methods of the adapter; the last text of each is the folder.
pub record Mailbox {ℓ} (W : Type ℓ) : Type ℓ where
  pub get_message : String → String → Action W Email
  pub delete_message : String → String → Action W Bool
  pub move_message : String → String → String → Action W Bool
  pub mark_read_message : String → Bool → String → Action W Bool

-- the loop of `_dispatch`
pub first_action : List Reply → Option InboxAction
first_action [] = none
first_action (raised e ∷ replies) = first_action replies
first_action (other_value ∷ replies) = first_action replies
first_action (answer a ∷ replies) =
    let rest = first_action replies in elim a.type_ [ no_action ↦ rest | _ ↦ some a ]

-- `True, ""` after a call, and `False, str(e)` where it raised
pub applied_or_error {ℓ} : {W : Type ℓ} → Outcome Bool × W → (Bool × String) × W
applied_or_error (ok _, w) = ((true, ""), w)
applied_or_error (raise e, w) = ((false, text_of e), w)

module _ {ℓ} {W : Type ℓ} (a : Mailbox W) (send : Email → String → W → List Reply × W)
    (folder : String) where
  pub apply_action : Email → InboxAction → W → (Bool × String) × W
  unfolding applied_or_error
  apply_action email act w = elim act.type_ [
    | delete ↦ applied_or_error (a.delete_message email.message_id folder w)
    | move ↦ applied_or_error (a.move_message email.message_id act.folder folder w)
    | mark_read ↦ applied_or_error (a.mark_read_message email.message_id act.read folder w)
    | no_action ↦ ((false, ""), w)
  ]

  -- `_apply`
  pub apply : Email → Option InboxAction → W → (Bool × String) × W
  unfolding apply_action
  apply email none w = ((false, ""), w)
  apply email (some act) w = apply_action email act w

  -- what follows `get_message`
  pub handle_email : Email → Outcome Email × W → PollRecord × W
  unfolding apply first_action
  handle_email summary (raise e, w) =
      (record { email = summary; action = none; applied = false; error = text_of e }, w)
  handle_email summary (ok email, w) =
      let (replies, sent) = send email folder w in
      let act = first_action replies in
      let ((applied, error), w') = apply email act sent in
      (record { email = email; action = act; applied = applied; error = error }, w')

  pub poll_one : Email → W → PollRecord × W
  unfolding handle_email
  poll_one summary w = handle_email summary (a.get_message summary.message_id folder w)

  pub poll_all : List Email → W → List PollRecord × W
  unfolding poll_one
  poll_all [] w = ([], w)
  poll_all (summary ∷ summaries) w =
      let (first, w') = poll_one summary w in
      let (rest, w'') = poll_all summaries w' in (first ∷ rest, w'')

  pub poll_fetched : List Email → Action W PollResult
  unfolding poll_all
  poll_fetched summaries w =
      let (records, w') = poll_all summaries w in
      (ok (record { folder = folder; fetched = length summaries; records = records }), w')

  -- `poll`, with the adapter's `fetch_messages` for the window and the limit asked
  unfoldable pub poll : Action W (List Email) → Action W PollResult
  unfolding poll_fetched
  poll fetch_messages = fetch_messages >>= poll_fetched
