-- ===== src/Django.antt =====
-- packages/django: the models, services and tasks round the connectors.
pub mod Connection
pub mod Credentials
pub mod SyncState
pub mod Sync
pub mod Tasks
pub mod Inbox
pub mod Links
pub mod Desk
pub mod Push
pub mod Pull
pub mod Webhooks
pub mod Processing
