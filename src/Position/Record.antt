-- ===== src/Position/Record.antt =====
-- `PositionRecord` (backend/execution/position_record.py): its fields, its state machine and the
-- live estimate of its profit. A timestamp is a number.
use polyfast.Base.{
  true, ◌≡◌, ◌⊎◌, inl, inr, Bool-cases, ℕ, String, Bool, false, not, Option, none, some, List,
  if◌then◌else◌, Result, ok, err, invalid_transition,
}
use polyfast.Float.{Float, ◌⊖◌, ◌⊗◌, ◌⊘◌, ◌<?◌}
use polyfast.Position.State.{
  PositionState, pending_open, open_confirmed, closed, CloseReason, ForceSellTrigger, allowed,
  is_state, is_sold_reason,
}

pub record PositionRecord (N : Type 0) : Type 0 where
  pub position_id : String
  pub asset : String
  pub side : String
  pub condition_id : String
  pub token_id : String
  pub state : PositionState
  pub created_at : ℕ
  pub requested_amount_usd : N
  pub fill_price : N
  pub gross_fill_shares : N
  pub entry_fee_shares : N
  pub net_position_shares : N
  pub fee_rate : N
  pub opened_at : Option ℕ
  pub exit_fill_price : N
  pub exit_gross_usdc : N
  pub actual_exit_fee_usdc : N
  pub net_exit_usdc : N
  pub net_realized_pnl : N
  pub close_reason : Option CloseReason
  pub close_trigger_set : List ForceSellTrigger
  pub close_triggered_at : Option ℕ
  pub close_requested_price : N
  pub closed_at : Option ℕ

module _ {N : Type 0} where
  -- `transition_to`; the record keeps its state where this raises.
  unfoldable pub transition_to : PositionState → PositionRecord N → Result (PositionRecord N)
  transition_to target r =
      if allowed r.state target then ok (record r { state = target }) else err invalid_transition

  -- A transition is made, and changes the state alone, or raises.
  pub transition_to-cases :
      (target : PositionState) (r : PositionRecord N)
      → ((allowed r.state target ≡ true)
          × (transition_to target r ≡ ok (record r { state = target })))
        ⊎ ((allowed r.state target ≡ false) × (transition_to target r ≡ err invalid_transition))
  unfolding transition_to
  transition_to-cases target r = elim (Bool-cases (allowed r.state target)) [
    | inl e ↦ inl (e, rw e)
    | inr e ↦ inr (e, rw e)
  ]

  abbrev pub is_open : PositionRecord N → Bool
  is_open r = is_state r.state open_confirmed

  abbrev pub is_closed : PositionRecord N → Bool
  is_closed r = is_state r.state closed

  abbrev pub is_pending : PositionRecord N → Bool
  is_pending r = is_state r.state pending_open

  -- The token was sold.
  unfoldable pub was_sold : PositionRecord N → Bool
  was_sold r = if not (is_closed r) then false else is_sold_reason r.close_reason

  -- The token is held and is to be redeemed.
  unfoldable pub needs_redeem : PositionRecord N → Bool
  needs_redeem r = if not (is_closed r) then false else not (was_sold r)

-- The dict that `calculate_unrealized_pnl` returns.
pub record PnlEstimate (N : Type 0) : Type 0 where
  pub current_price : N
  pub gross_position_value : N
  pub estimated_exit_fee_usdc : N
  pub net_exit_value_estimate : N
  pub net_unrealized_pnl_estimate : N
  pub net_unrealized_pnl_pct : N

module _ {N : Type 0} ⦃f : Float N⦄ where
  -- `fee_rate or self.fee_rate`: a rate of 0 counts as not given.
  abbrev pub rate_or : Option N → N → N
  rate_or none own = own
  rate_or (some rate) own = if f.eqf rate f.zero_f then own else rate

  unfoldable pub calculate_unrealized_pnl : PositionRecord N → N → Option N → PnlEstimate N
  calculate_unrealized_pnl r price fee_rate =
      let rate = rate_or fee_rate r.fee_rate in
      let gross_value = r.net_position_shares ⊗ price in
      let est_fee = r.net_position_shares ⊗ rate ⊗ price ⊗ (f.one_f ⊖ price) in
      let net_value = gross_value ⊖ est_fee in
      let net_pnl = net_value ⊖ r.requested_amount_usd in
      record {
        current_price = f.round price 4;
        gross_position_value = f.round gross_value 4;
        estimated_exit_fee_usdc = f.round est_fee 4;
        net_exit_value_estimate = f.round net_value 4;
        net_unrealized_pnl_estimate = f.round net_pnl 4;
        net_unrealized_pnl_pct =
            if f.zero_f <? r.requested_amount_usd
            then f.round (net_pnl ⊘ r.requested_amount_usd ⊗ f.hundred) 2
            else f.zero_f;
      }

  -- The field that every caller reads.
  abbrev pub pnl_pct : PositionRecord N → N → N
  pnl_pct r price = (calculate_unrealized_pnl r price none).net_unrealized_pnl_pct
