-- ===== src/Position/State.antt =====
-- The states of a position, their allowed transitions, and the reasons for which it is closed
-- (backend/execution/position_record.py, backend/execution/close_reason.py).
use polyfast.Base.{Bool, true, false, Option, some}

-- `PositionState`
pub data PositionState : Type 0 where
  pending_open open_confirmed closing_requested close_pending closed close_failed : PositionState

-- `CloseReason`
pub data CloseReason : Type 0 where
  take_profit stop_loss force_sell manual_close expiry : CloseReason
  claim system_shutdown error_recovery : CloseReason

-- `ForceSellTrigger`
pub data ForceSellTrigger : Type 0 where
  time pnl : ForceSellTrigger

-- `target in ALLOWED_TRANSITIONS[state]`
unfoldable pub allowed : PositionState → PositionState → Bool
allowed pending_open open_confirmed = true
allowed pending_open closed = true
allowed open_confirmed closing_requested = true
allowed closing_requested close_pending = true
allowed closing_requested open_confirmed = true
allowed close_pending closed = true
allowed close_pending close_failed = true
allowed close_failed closing_requested = true
allowed close_failed closed = true
allowed _ _ = false

-- `state == PositionState.…`
abbrev pub is_state : PositionState → PositionState → Bool
is_state pending_open pending_open = true
is_state open_confirmed open_confirmed = true
is_state closing_requested closing_requested = true
is_state close_pending close_pending = true
is_state closed closed = true
is_state close_failed close_failed = true
is_state _ _ = false

-- `close_reason in sold_reasons` of `was_sold`
abbrev pub is_sold_reason : Option CloseReason → Bool
is_sold_reason (some take_profit) = true
is_sold_reason (some stop_loss) = true
is_sold_reason (some force_sell) = true
is_sold_reason (some manual_close) = true
is_sold_reason (some system_shutdown) = true
is_sold_reason (some error_recovery) = true
is_sold_reason _ = false
