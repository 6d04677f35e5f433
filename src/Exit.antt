-- ===== src/Exit.antt =====
-- Selling: when an open position is to be closed and how its sell order is tried
-- (backend/execution/exit_evaluator.py and exit_executor.py).
pub mod Evaluator
pub mod Executor
mod Tests
