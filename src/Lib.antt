-- ===== src/Lib.antt =====
-- Verification of bapp-connectors, the Python framework that connects business software to shops,
-- couriers, payment providers and other remote services. The framework's core is in
-- src/bapp_connectors/core: an HTTP client with retries, a product sync engine, and webhooks. A
-- Django package in packages/django stores connections, sync states and webhook events, and runs
-- tasks on them. Adapters of single providers (src/bapp_connectors/providers) are thin mappings
-- between a remote API and the core's data.
--
-- How the parts interact: the registry makes an adapter, with its client, from a provider's
-- manifest and a tenant's credentials and settings. A task checks its connection, asks it for an
-- adapter and calls it; the adapter calls the HTTP client, which sends the request under the retry
-- policy and sorts failures into the error hierarchy; the circuit breaker counts authentication
-- errors and disables the connection. The sync engine drives an adapter to pull and push products
-- and categories. A webhook is verified and given a key by the dispatcher, and stored once by the
-- service.
--
-- The files, with the code that they model:
--   * Base, Effect: numbers, texts, dicts, and code that changes state and may raise.
--   * Errors: core/errors.py. An exception is a value; a class is a constructor.
--   * Http/Retry: core/http/retry.py (compute_delay, should_retry, execute_with_retry); Delay,
--     Attempts and Calls hold its theorems.
--   * Http/RateLimit: core/http/rate_limit.py (_refill, acquire, wait).
--   * Http/Auth, Http/Middleware, Http/Url, Http/Message: core/http/auth.py, core/http/middleware.py
--     and what core/http/client.py exchanges with requests.
--   * Http/Client: core/http/client.py (_build_url, _build_headers, _classify_error,
--     _execute_request, call and the verbs get, post, put, patch and delete as get_call, ...).
--   * Sync: core/sync/engine.py with core/sync/dto.py, core/dto/product.py and core/dto/base.py. Pull
--     is pull_products, Sequential and Bulk are the two paths of push_products (Push), Categories
--     is pull_categories, sync_categories and push_categories, Adapter the shop port with its
--     capabilities.
--   * Manifest: core/manifest.py with ProviderFamily and AuthStrategy of core/types.py. Registry:
--     core/registry.py (register, get_adapter_class, create_adapter, _build_auth).
--   * Pricing: core/pricing/__init__.py (to_gross, to_net), with core/pricing/customer_key.py in
--     Pricing/CustomerKey.
--   * StatusMapping: core/status_mapping.py with OrderStatus of core/dto/order.py.
--   * Webhooks: core/webhooks/signatures.py and core/webhooks/dispatcher.py.
--   * Django/Connection: models/connection.py of packages/django/src/django_bapp_connectors, and
--     ConnectionService.test_connection of services/connection.py (note_test).
--   * Django/Credentials: the credentials and settings of services/connection.py
--     (persist_rotated_credentials, rotate_credentials, validate_settings, update_settings).
--   * Django/SyncState: models/sync_state.py. Django/Sync: services/sync.py.
--   * Django/Links: models/sync_link.py, the links between local and remote items.
--   * Django/Desk and Django/Push: services/push.py (acquire_lock; push with its loops as select and
--     settle_pushed). Again, Lock and Accounting hold its theorems.
--   * Django/Pull: services/pull.py (_apply_decision; pull, with its loops in Pages).
--   * Django/Tasks: tasks.py (_guard_operational, _handle_auth_error, execute_adapter_method,
--     incremental_sync as incremental_sync_task, full_resync as full_resync_task).
--   * Django/Processing: process_webhook of tasks.py, with stored_webhook_body of services/webhook.py.
--   * Django/Webhooks: models/webhook_event.py and services/webhook.py (receive, _store_rejected).
--   * Django/Inbox: services/inbox.py (poll, _dispatch as first_action, _apply).
--   * Providers: parts of src/bapp_connectors/providers with logic of their own. Feed is
--     feed/_utils.py; FiscalCalendar is appstore/apple/fiscal_calendar.py; LibraPay is client.py,
--     mappers.py and parse_webhook of payment/librapay, its Forms create_checkout_session and
--     refund of adapter.py; Netopia is payment/netopia/ipn.py with verify_webhook of its
--     adapter.py.
--
-- Conventions: an operation that may raise maps a state to an outcome and a state, so what was
-- written before a raise stays. Durations are whole milliseconds and amounts integers in a fixed
-- unit, in place of Python's floats and decimals; prices are exact fractions. requests, the clock,
-- sleeping, hashing, JSON, the ORM's connection to a database and every adapter are arguments:
-- records of functions over a state of the outside world, of which a theorem assumes only what it
-- states.
--
-- Bounds and fuel: the retry loop runs over the rounds that the policy allows, max_retries + 1. The
-- batches of a bulk push take the number of products as fuel, which is enough since each batch
-- takes at least one. The pages of a pull take fuel given by the caller: a provider may serve pages
-- for ever, and the theorems on pulling say which fuel is enough when its pages end, or when the
-- number of pages is limited. Dates run up to the year 9999, as Python's do. The waiting loop of
-- the rate limiter needs two rounds where sleeps last as long as asked.
--
-- Not modelled: the other providers, which are mappings over remote services; the abstract ports
-- and capabilities beyond what the engine calls; log lines; the receiver view, the OAuth service,
-- ConnectionService.get_adapter, and the descriptions of providers for forms; Django's admin,
-- settings, encryption and signal objects.
pub mod Base
pub mod Errors
pub mod Effect
pub mod Http
pub mod Sync
pub mod Webhooks
pub mod StatusMapping
pub mod Pricing
pub mod Manifest
pub mod Registry
pub mod Providers
pub mod Django
