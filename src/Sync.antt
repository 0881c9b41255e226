-- ===== src/Sync.antt =====
-- core/sync: the product sync engine, over a shop adapter of the outside world.
pub mod Dto
pub mod Counting
pub mod Adapter
pub mod Pull
pub mod Sequential
pub mod Bulk
pub mod Push
pub mod Categories
pub mod Tests
