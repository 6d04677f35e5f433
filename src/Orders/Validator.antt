-- ===== src/Orders/Validator.antt =====
-- `OrderValidator` (backend/execution/order_validator.py, backend/execution/models.py). The detail
-- dicts of a rejection are for the log and are left out. Counts and limits are numbers.
pub mod Checks
use polyfast.Base.{ℕ, String, Bool, true, false, ◌&&◌, if◌then◌else◌, leb, str_eq}
use polyfast.Float.{Float, ◌<?◌}
use polyfast.Orders.Intent.{OrderIntent}

pub data RejectReason : Type 0 where
  insufficient_balance below_minimum_amount event_max_reached : RejectReason
  bot_max_reached missing_token_id missing_condition_id claim_pending : RejectReason

pub data ValidationResult : Type 0 where
  valid : ValidationResult
  rejected : RejectReason → ValidationResult

-- The arguments of `validate` beside the intent.
pub record Limits (N : Type 0) : Type 0 where
  pub min_order_usd : N  -- the validator's field
  pub available_balance : N
  pub event_fill_count : ℕ
  pub event_max : ℕ
  pub open_position_count : ℕ
  pub bot_max : ℕ
  pub has_pending_claims : Bool
  pub wait_for_claim_redeem : Bool

module _ {N : Type 0} ⦃f : Float N⦄ where
  unfoldable pub validate : OrderIntent N → Limits N → ValidationResult
  validate i l =
      if l.wait_for_claim_redeem && l.has_pending_claims
      then rejected claim_pending
      else if str_eq i.token_id ""
      then rejected missing_token_id
      else if str_eq i.condition_id ""
      then rejected missing_condition_id
      else if i.amount_usd <? l.min_order_usd
      then rejected below_minimum_amount
      else if l.available_balance <? i.amount_usd
      then rejected insufficient_balance
      else if leb l.event_max l.event_fill_count
      then rejected event_max_reached
      else if leb l.bot_max l.open_position_count
      then rejected bot_max_reached
      else valid
