-- ===== src/Orders.antt =====
-- Buying: the order intent, its validation and its execution (backend/execution/order_intent.py,
-- models.py, order_validator.py and order_executor.py).
pub mod Intent
pub mod Validator
pub mod Executor
mod Tests
