-- ===== src/Registry.antt =====
-- The life of an event: backend/registry.
pub mod Status
pub mod Service
pub mod Sync
mod Tests
