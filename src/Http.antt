-- ===== src/Http.antt =====
-- core/http: the resilient HTTP client and what it is built from.
pub mod Retry
pub mod Auth
pub mod Middleware
pub mod Url
pub mod Message
pub mod RateLimit
pub mod Client
