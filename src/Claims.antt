-- ===== src/Claims.antt =====
-- Claims of resolved events: backend/execution/claim_manager.py.
pub mod Record
pub mod Manager
mod Tests
