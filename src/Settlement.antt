-- ===== src/Settlement.antt =====
-- Redeeming closed positions of resolved events: backend/orchestrator/settlement.py.
pub mod Retry
pub mod World
pub mod Pass
mod Tests
