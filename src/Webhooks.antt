-- ===== src/Webhooks.antt =====
-- core/webhooks: signatures and the dispatcher.
pub mod Signatures
pub mod Dispatcher
