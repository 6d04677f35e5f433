-- ===== src/Orchestrator.antt =====
-- backend/orchestrator: what ties the components together.
pub mod Slots
pub mod Events
pub mod Evaluation
pub mod Restore
pub mod ExitCycle
mod Tests
