-- ===== src/Settings.antt =====
-- A coin's settings and which events may be traded: backend/settings and
-- backend/orchestrator/eligibility_gate.py.
pub mod Coin
pub mod Store
pub mod Gate
mod Tests
