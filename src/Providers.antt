-- ===== src/Providers.antt =====
-- src/bapp_connectors/providers: parts of single providers that have logic of their own.
pub mod Feed
pub mod FiscalCalendar
pub mod LibraPay
pub mod Netopia
