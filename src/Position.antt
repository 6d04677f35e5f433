-- ===== src/Position.antt =====
-- Positions: backend/execution/position_record.py, close_reason.py, fee_calculator.py and
-- position_tracker.py.
pub mod State
pub mod Record
pub mod Fees
pub mod Tracker
pub mod Samples
mod Tests
