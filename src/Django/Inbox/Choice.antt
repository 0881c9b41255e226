-- ===== src/Django/Inbox/Choice.antt =====
-- The action that a message gets.
use bapp_connectors.Base.{
  Bool, List, Option, [], ap, arith, false, if◌then◌else◌, not, refl, some, true, ◌&&◌, ◌++◌, ◌∙◌,
  ◌∷◌, ◌≡◌, string_key,
}
use bapp_connectors.Django.Inbox.{
  InboxAction, InboxActionType, Reply, answer, delete, first_action, mark_read, move, no_action,
  other_value, raised,
}

abbrev pub is_real : InboxActionType → Bool
is_real no_action = false
is_real _ = true

-- a reply that asks for nothing
abbrev pub is_passed : Reply → Bool
is_passed (answer act) = not (is_real act.type_)
is_passed _ = true

abbrev pub all_passed : List Reply → Bool
all_passed [] = true
all_passed (reply ∷ replies) = is_passed reply && all_passed replies

first_action-answer :
    (act : InboxAction) (kind : InboxActionType) (replies : List Reply)
    → act.type_ ≡ kind
    → first_action (answer act ∷ replies)
      ≡ (if is_real kind then some act else first_action replies)
unfolding first_action
first_action-answer act no_action replies e =
    ap
      (λ k. elim k as (λ x. Option InboxAction) [ no_action ↦ first_action replies | _ ↦ some act ])
      e
first_action-answer act delete replies e =
    ap
      (λ k. elim k as (λ x. Option InboxAction) [ no_action ↦ first_action replies | _ ↦ some act ])
      e
first_action-answer act move replies e =
    ap
      (λ k. elim k as (λ x. Option InboxAction) [ no_action ↦ first_action replies | _ ↦ some act ])
      e
first_action-answer act mark_read replies e =
    ap
      (λ k. elim k as (λ x. Option InboxAction) [ no_action ↦ first_action replies | _ ↦ some act ])
      e

-- Receivers that raise, that answer with no action or with another value, are passed over: a message
-- gets the action of the first receiver that asks for one, whatever the receivers after it answer.
pub first_action_passes :
    (before after : List Reply) (act : InboxAction)
    → all_passed before ≡ true
    → is_real act.type_ ≡ true
    → first_action (before ++ answer act ∷ after) ≡ some act
unfolding first_action
first_action_passes [] after act h real =
    first_action-answer act act.type_ after refl ∙ rw real refl
first_action_passes (raised e ∷ before) after act h real =
    first_action_passes before after act h real
first_action_passes (other_value ∷ before) after act h real =
    first_action_passes before after act h real
first_action_passes (answer none_yet ∷ before) after act h real =
    let idle : is_real none_yet.type_ ≡ false = ground arith in
    let rest : all_passed before ≡ true = ground arith in
    first_action-answer none_yet none_yet.type_ (before ++ answer act ∷ after) refl
    ∙ rw idle (first_action_passes before after act rest real)
