-- ===== src/Orders/Intent.antt =====
-- `OrderIntent` (backend/execution/order_intent.py).
use polyfast.Base.{ℕ, String}

pub data OrderSide : Type 0 where
  up down : OrderSide

-- `side.value`
abbrev pub side_value : OrderSide → String
side_value up = "UP"
side_value down = "DOWN"

pub record OrderIntent (N : Type 0) : Type 0 where
  pub asset : String
  pub side : OrderSide
  pub amount_usd : N
  pub condition_id : String
  pub token_id : String
  pub dominant_price : N
  pub event_max : ℕ
