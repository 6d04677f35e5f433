-- ===== src/Strategy.antt =====
-- The entry decision: backend/strategy.
pub mod State
pub mod Context
pub mod Rules
pub mod Engine
mod Tests
