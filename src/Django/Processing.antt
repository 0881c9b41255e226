-- ===== src/Django/Processing.antt =====
-- The task process_webhook of packages/django/src/django_bapp_connectors/tasks.py, with
-- stored_webhook_body of services/webhook.py and the states of models/webhook_event.py. The adapter
-- works on the outside world and leaves the connection alone; `send_robust` never raises.
pub mod Bodies
pub mod Results
pub mod Tests
use bapp_connectors.Base.{
  List, Option, String, [], if◌then◌else◌, none, not, prefix, some, truthy, ℕ, ◌&&◌, ◌++◌, ◌==◌,
  ◌∷◌, string_key,
}
use bapp_connectors.Base.Dict.{Dict}
use bapp_connectors.Errors.{Exn, text_of}
use bapp_connectors.Effect.{Action, catch, ok, pure, raise, ◌>>=◌, ◌>>◌}
use bapp_connectors.Webhooks.Dispatcher.{Payload, json_payload, raw_payload}
use bapp_connectors.Django.Connection.{Store}
use bapp_connectors.Django.Tasks.{handle_auth_error}
use bapp_connectors.Django.Webhooks.{EventRow, failed_status, processed, processing}

-- What `json` and `str` do for `stored_webhook_body`.
pub record Encoding {ℓ} (B J : Type ℓ) : Type ℓ where
  -- the text of a dict that has the key `raw` alone, with a text under it
  pub raw_text : J → Option String
  pub encode : String → B
  pub dumps : J → B

-- A payload is a dict, so the case of other values does not arise.
unfoldable pub stored_webhook_body {ℓ} : {B J : Type ℓ} → Encoding B J → Payload J → B
stored_webhook_body enc (raw_payload text) = enc.encode text
stored_webhook_body enc (json_payload j) = elim (enc.raw_text j) [
  | none ↦ enc.dumps j
  | some text ↦ enc.encode text
]

module _ {ℓ} {J : Type ℓ} where
  abbrev pub mark_processing : EventRow J → EventRow J
  mark_processing event = record event { status = processing }

  abbrev pub mark_event_failed : String → EventRow J → EventRow J
  mark_event_failed error event = record event { status = failed_status; error = prefix 2000 error }

-- A `webhook_event_processed` signal, with what `parse_webhook` made of the webhook.
pub record ProcessedSignal {ℓ} (D : Type ℓ) : Type ℓ where
  pub webhook_dto : Option D
  pub event_type : String
  pub provider_family : String
  pub provider_name : String

-- What the task works on: the event with its `processed_at`, its connection where it has one, the
-- signals sent, and the outside world.
pub record Job {ℓ} (J D W : Type ℓ) : Type ℓ where
  pub event : EventRow J
  pub processed_at : Option ℕ
  pub connection : Option Store
  pub sent : List (ProcessedSignal D)
  pub outside : W

-- `parse_webhook` of an adapter
abbrev pub WebhookParser {ℓ} : Type ℓ → Type ℓ → Type ℓ → Type ℓ
WebhookParser B D W = Dict String String → B → Action W (Option D)

-- `value` is `dto.event_type` as a text; `get_adapter` tells the parser of the adapter, if it has one.
pub record Processor {ℓ} (B J D W : Type ℓ) : Type ℓ where
  pub encoding : Encoding B J
  pub type_of : D → String
  pub get_adapter : Action W (Option (WebhookParser B D W))
  pub now : W → ℕ

module _ {ℓ} {B J D W : Type ℓ} (c : Processor B J D W) where
  pub parse_with : Option (WebhookParser B D W) → EventRow J → Action W (Option D)
  unfolding stored_webhook_body
  parse_with none event = pure none
  parse_with (some parse_webhook) event =
      parse_webhook event.headers (stored_webhook_body c.encoding event.payload)

  -- the adapter is asked where there is a connection
  pub parse_for : Option Store → Action (Job J D W) (Option D)
  unfolding parse_with
  parse_for none job = (ok none, job)
  parse_for (some _) job =
      let (o, w') = (do parser ← c.get_adapter; parse_with parser job.event) job.outside in
      (o, record job { outside = w' })

  pub parse_stored : Action (Job J D W) (Option D)
  unfolding parse_for
  parse_stored job = parse_for job.connection job

  abbrev pub dto_type : Option D → String
  dto_type none = ""
  dto_type (some dto) = c.type_of dto

  -- the type that an event of unknown type takes from what was parsed
  pub known_type : String → Option D → String
  known_type old dto =
      let parsed = dto_type dto in
      if old == "unknown" && truthy parsed && not (parsed == "unknown") then parsed else old

  abbrev pub family_of : Option Store → String
  family_of none = ""
  family_of (some s) = s.object.provider_family

  abbrev pub name_of : Option Store → String
  name_of none = ""
  name_of (some s) = s.object.provider_name

  abbrev pub processed_signal : Option Store → Option D → ProcessedSignal D
  processed_signal connection dto = record {
    webhook_dto = dto;
    event_type = dto_type dto;
    provider_family = family_of connection;
    provider_name = name_of connection;
  }

  -- the type, `mark_processed` and the signal
  pub complete_event : Option D → Action (Job J D W) (Unit {0})
  unfolding known_type
  complete_event dto job = (
    ok tt,
    record job {
      event = record job.event {
        event_type = known_type job.event.event_type dto;
        status = processed;
      };
      processed_at = some (c.now job.outside);
      sent = job.sent ++ processed_signal job.connection dto ∷ [];
    },
  )

  abbrev pub record_auth_error : ℕ → Exn → Option Store → Option Store
  record_auth_error now e none = none
  record_auth_error now e (some s) = some (handle_auth_error now e s)

  -- the `except`, which raises again
  pub note_failure : Exn → Action (Job J D W) (Unit {0})
  note_failure e job = (
    raise e,
    record job {
      event = mark_event_failed (text_of e) job.event;
      connection = record_auth_error (c.now job.outside) e job.connection;
    },
  )

  unfoldable pub process_webhook : Action (Job J D W) (Unit {0})
  unfolding parse_stored complete_event note_failure
  process_webhook job =
      catch (do dto ← parse_stored; complete_event dto) note_failure
        (record job { event = mark_processing job.event })
