-- ===== src/Position/Fees.antt =====
-- `FeeCalculator` (backend/execution/fee_calculator.py). Its one field is the rate, which each
-- function takes first.
pub mod Bounds
use polyfast.Base.{if◌then◌else◌, Result, ok, err, zero_division}
use polyfast.Float.{Float, ◌⊖◌, ◌⊗◌, ◌⊘◌}

-- The dict that `calculate_entry` returns.
pub record EntryFill (N : Type 0) : Type 0 where
  pub gross_fill_shares : N
  pub entry_fee_shares : N
  pub net_position_shares : N
  pub fee_rate : N

-- The dict that `calculate_exit` returns.
pub record ExitFill (N : Type 0) : Type 0 where
  pub exit_gross_usdc : N
  pub actual_exit_fee_usdc : N
  pub net_exit_usdc : N

-- The dict that `estimate_exit` returns.
pub record ExitEstimate (N : Type 0) : Type 0 where
  pub gross_position_value : N
  pub estimated_exit_fee_usdc : N
  pub net_exit_value_estimate : N

module _ {N : Type 0} where
  -- `set_fee_rate`: the new rate takes the place of the old one.
  abbrev pub set_fee_rate : N → N → N
  set_fee_rate rate old = rate

module _ {N : Type 0} ⦃f : Float N⦄ where
  unfoldable pub calculate_buy_fee_shares : N → N → N → N
  calculate_buy_fee_shares rate shares price = shares ⊗ rate ⊗ price ⊗ (f.one_f ⊖ price)

  unfoldable pub calculate_sell_fee_usdc : N → N → N → N
  calculate_sell_fee_usdc rate shares price = shares ⊗ rate ⊗ price ⊗ (f.one_f ⊖ price)

  -- The dict that `calculate_entry` builds.
  unfoldable pub entry_fill : N → N → N → EntryFill N
  unfolding calculate_buy_fee_shares
  entry_fill rate requested_usd fill_price =
      let gross_shares = requested_usd ⊘ fill_price in
      let fee_shares = calculate_buy_fee_shares rate gross_shares fill_price in
      let net_shares = gross_shares ⊖ fee_shares in
      record {
        gross_fill_shares = f.round gross_shares 8;
        entry_fee_shares = f.round fee_shares 8;
        net_position_shares = f.round net_shares 8;
        fee_rate = rate;
      }

  -- A fill price of 0 raises ZeroDivisionError.
  unfoldable pub calculate_entry : N → N → N → Result (EntryFill N)
  calculate_entry rate requested_usd fill_price =
      if f.eqf fill_price f.zero_f
      then err zero_division
      else ok (entry_fill rate requested_usd fill_price)

  unfoldable pub calculate_exit : N → N → N → ExitFill N
  calculate_exit rate net_shares exit_price =
      let gross_usdc = net_shares ⊗ exit_price in
      let fee_usdc = calculate_sell_fee_usdc rate net_shares exit_price in
      record {
        exit_gross_usdc = f.round gross_usdc 8;
        actual_exit_fee_usdc = f.round fee_usdc 8;
        net_exit_usdc = f.round (gross_usdc ⊖ fee_usdc) 8;
      }

  unfoldable pub estimate_exit : N → N → N → ExitEstimate N
  estimate_exit rate net_shares current_price =
      let gross_value = net_shares ⊗ current_price in
      let est_fee = calculate_sell_fee_usdc rate net_shares current_price in
      record {
        gross_position_value = f.round gross_value 8;
        estimated_exit_fee_usdc = f.round est_fee 8;
        net_exit_value_estimate = f.round (gross_value ⊖ est_fee) 8;
      }
