-- ===== src/Django/Inbox/Tests.antt =====
-- A poll of three messages, of which the second cannot be read. The world counts changes.
use bapp_connectors.Base.{
  List, String, [], false, if◌then◌else◌, none, refl, true, ℕ, ◌+◌, ◌==◌, ◌∷◌, ◌≡◌, string_key,
}
use bapp_connectors.Errors.{exception}
use bapp_connectors.Effect.{Action, ok, raise}
use bapp_connectors.Django.Inbox.{
  Email, InboxAction, Mailbox, Reply, answer, delete, no_action, poll, poll_all, raised,
}
use bapp_connectors.Django.Inbox.Accounting.{
  Polled, deleted, logged, poll-Polled, send_logged, unlogged,
}

abbrev mail : String → Email
mail id = record { message_id = id; subject = "s" }

abbrev to_trash : InboxAction
to_trash = record { type_ = delete; folder = ""; read = false }

abbrev nothing : InboxAction
nothing = record { type_ = no_action; folder = ""; read = false }

abbrev mailbox : Mailbox ℕ
mailbox = record {
  get_message =
      λ id folder n. if id == "b" then (raise (exception "gone"), n) else (ok (mail id), n);
  delete_message = λ id folder n. (ok true, n + 1);
  move_message = λ id target folder n. (ok true, n + 1);
  mark_read_message = λ id read folder n. (raise (exception "refused"), n);
}

abbrev receivers : Email → String → ℕ → List Reply × ℕ
receivers email folder n = (raised (exception "bug") ∷ answer nothing ∷ answer to_trash ∷ [], n)

abbrev inbox : Action ℕ (List Email)
inbox n = (ok (mail "a" ∷ mail "b" ∷ mail "c" ∷ []), n)

-- Two messages are deleted.
poll_test : (poll mailbox receivers "INBOX" inbox 0).1 ≡ 2
unfolding poll poll_all
poll_test = refl

poll-Polled_example :
    Polled mailbox receivers "INBOX" (inbox 0) (poll mailbox receivers "INBOX" inbox 0) (
      poll
        (logged mailbox receivers "INBOX")
        (send_logged mailbox receivers "INBOX")
        "INBOX"
        (λ s. unlogged (inbox s.0) s.1)
        (0, []))
poll-Polled_example = poll-Polled mailbox receivers "INBOX" inbox 0

-- The log of that poll.
poll_log :
    (poll
      (logged mailbox receivers "INBOX")
      (send_logged mailbox receivers "INBOX")
      "INBOX"
      (λ s. unlogged (inbox s.0) s.1)
      (0, [])).1.1
    ≡ deleted "a" none ∷ deleted "c" none ∷ []
unfolding poll poll_all
poll_log = refl
