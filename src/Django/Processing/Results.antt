-- ===== src/Django/Processing/Results.antt =====
-- How the task process_webhook ends.
use bapp_connectors.Django.Processing.{
  Job, Processor, WebhookParser, known_type, mark_processing, processed_signal, record_auth_error,
  stored_webhook_body,
}
use bapp_connectors.Base.{Option, [], none, prefix, some, ◌++◌, ◌∷◌, ◌≡◌, string_key}
use bapp_connectors.Django.Webhooks.{EventRow, failed_status, processed}
use bapp_connectors.Errors.{text_of}
use bapp_connectors.Effect.{Outcome, ok, raise, ◌>>=◌}
use bapp_connectors.Django.Connection.{Store}

module _ {ℓ} {B J D W : Type ℓ} (c : Processor B J D W) where
  -- What comes of the adapter, once it was made or failed to be: its parser gets the stored headers and
  -- the rebuilt body, and an adapter without a parser makes nothing of the webhook.
  abbrev pub Asked :
      EventRow J → Outcome (Option (WebhookParser B D W)) × W → Outcome (Option D) → W → Type ℓ
  Asked event (raise e, w) o w' = (o ≡ raise e) × (w' ≡ w)
  Asked event (ok none, w) o w' = (o ≡ ok none) × (w' ≡ w)
  Asked event (ok (some parse), w) o w' =
      parse event.headers (stored_webhook_body c.encoding event.payload) w ≡ (o, w')

  -- What comes of asking the adapter to parse the stored webhook, and the world after it; without a
  -- connection nothing is asked.
  abbrev pub Parses : Option Store → EventRow J → W → Outcome (Option D) → W → Type ℓ
  Parses none event w o w' = (o ≡ ok none) × (w' ≡ w)
  Parses (some _) event w o w' = Asked event (c.get_adapter w) o w'

  -- Processed, with one signal; or failed, with none.
  abbrev pub Ended : Job J D W → Outcome (Unit {0}) × Job J D W → Type ℓ
  Ended job (ok _, job') =
      (dto : Option D) × Parses job.connection (mark_processing job.event) job.outside (ok dto)
        job'.outside
      × (job'.event.status ≡ processed)
      × (job'.event.event_type ≡ known_type c job.event.event_type dto)
      × (job'.event.error ≡ job.event.error)
      × (job'.sent ≡ job.sent ++ processed_signal c job.connection dto ∷ [])
      × (job'.connection ≡ job.connection)
  Ended job (raise e, job') =
      Parses job.connection (mark_processing job.event) job.outside (raise e) job'.outside
      × (job'.event.status ≡ failed_status)
      × (job'.event.event_type ≡ job.event.event_type)
      × (job'.event.error ≡ prefix 2000 (text_of e))
      × (job'.sent ≡ job.sent)
      × (job'.connection ≡ record_auth_error c (c.now job'.outside) e job.connection)
