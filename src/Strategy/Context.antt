-- ===== src/Strategy/Context.antt =====
-- `EvaluationContext` (backend/strategy/evaluation_context.py) and its derived values. The thresholds
-- that are Python integers stand as floats, which is how they are compared. The names of the event
-- and the time of the evaluation are for the log and are left out.
use polyfast.Base.{ℕ, String, Bool, if◌then◌else◌, ◌&&◌}
use polyfast.Float.{Float, abs, ◌⊖◌, ◌⊗◌, ◌⊘◌, ◌<?◌, ◌≤?◌}

-- `SideMode` (backend/settings/coin_settings.py)
pub data SideMode : Type 0 where
  dominant_only up_only down_only : SideMode

pub record EvaluationContext (N : Type 0) : Type 0 where
  pub condition_id : String
  pub up_bid : N
  pub up_ask : N
  pub down_bid : N
  pub down_ask : N
  pub best_bid : N
  pub best_ask : N
  pub outcome_fresh : Bool
  pub side_mode : SideMode
  pub coin_usd_price : N
  pub coin_usd_fresh : Bool
  pub ptb_value : N
  pub ptb_acquired : Bool
  pub seconds_remaining : N
  pub event_fill_count : ℕ
  pub open_position_count : ℕ
  pub time_min_seconds : N
  pub time_max_seconds : N
  pub price_min : N
  pub price_max : N
  pub delta_threshold : N
  pub spread_max_pct : N
  pub event_max_positions : ℕ
  pub bot_max_positions : ℕ
  pub time_enabled : Bool
  pub price_enabled : Bool
  pub delta_enabled : Bool
  pub spread_enabled : Bool
  pub event_max_enabled : Bool
  pub bot_max_enabled : Bool

module _ {N : Type 0} ⦃f : Float N⦄ where
  -- `up_bid >= down_bid`
  abbrev pub up_dominates : EvaluationContext N → Bool
  up_dominates c = c.down_bid ≤? c.up_bid

  unfoldable pub evaluated_side : EvaluationContext N → String
  evaluated_side c = elim c.side_mode [
    | up_only ↦ "UP"
    | down_only ↦ "DOWN"
    | dominant_only ↦ (if up_dominates c then "UP" else "DOWN")
  ]

  unfoldable pub entry_ref_price : EvaluationContext N → N
  entry_ref_price c = elim c.side_mode [
    | up_only ↦ c.up_ask
    | down_only ↦ c.down_ask
    | dominant_only ↦ (if up_dominates c then c.up_ask else c.down_ask)
  ]

  unfoldable pub exit_ref_price : EvaluationContext N → N
  exit_ref_price c = elim c.side_mode [
    | up_only ↦ c.up_bid
    | down_only ↦ c.down_bid
    | dominant_only ↦ (if up_dominates c then c.up_bid else c.down_bid)
  ]

  -- `evaluated_price` is `entry_ref_price`.
  unfoldable pub evaluated_price_100 : EvaluationContext N → N
  evaluated_price_100 c = entry_ref_price c ⊗ f.hundred

  unfoldable pub spread_pct : EvaluationContext N → N
  spread_pct c =
      let ask = entry_ref_price c in
      let bid = exit_ref_price c in
      if f.zero_f <? ask then (ask ⊖ bid) ⊘ ask ⊗ f.hundred else f.zero_f

  unfoldable pub delta : EvaluationContext N → N
  delta c =
      if (f.zero_f <? c.coin_usd_price) && (f.zero_f <? c.ptb_value)
      then abs (c.coin_usd_price ⊖ c.ptb_value)
      else f.zero_f
