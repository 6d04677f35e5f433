-- ===== src/Strategy/Rules.antt =====
-- The six rules (backend/strategy/rules) on `BaseRule` (backend/strategy/base_rule.py).
use polyfast.Base.{String, Bool, not, ◌&&◌, if◌then◌else◌, ltb, Result, ok, List, [], ◌∷◌}
use polyfast.Float.{Float, ◌≤?◌}
use polyfast.Strategy.State.{RuleState, pass, fail, waiting, disabled}
use polyfast.Strategy.Context.{EvaluationContext, evaluated_price_100, spread_pct, delta}

-- `judge` is `_evaluate`, which may raise.
pub record BaseRule (N : Type 0) : Type 0 where
  pub name : String
  pub is_enabled : EvaluationContext N → Bool
  pub judge : EvaluationContext N → Result RuleState

-- `BaseRule.evaluate`
unfoldable pub apply_rule : {N : Type 0} → BaseRule N → EvaluationContext N → Result RuleState
apply_rule rule c = if not (rule.is_enabled c) then ok disabled else rule.judge c

module _ {N : Type 0} ⦃f : Float N⦄ where
  unfoldable pub time_state : EvaluationContext N → RuleState
  time_state c =
      if c.seconds_remaining ≤? f.zero_f
      then fail
      else if (c.time_min_seconds ≤? c.seconds_remaining)
          && (c.seconds_remaining ≤? c.time_max_seconds)
      then pass
      else fail

  unfoldable pub price_state : EvaluationContext N → RuleState
  price_state c =
      if not c.outcome_fresh
      then waiting
      else if (c.price_min ≤? evaluated_price_100 c) && (evaluated_price_100 c ≤? c.price_max)
      then pass
      else fail

  unfoldable pub delta_state : EvaluationContext N → RuleState
  delta_state c =
      if not c.ptb_acquired
      then waiting
      else if not c.coin_usd_fresh
      then waiting
      else if c.delta_threshold ≤? delta c
      then pass
      else fail

  unfoldable pub spread_state : EvaluationContext N → RuleState
  spread_state c =
      if not c.outcome_fresh
      then waiting
      else if c.best_ask ≤? f.zero_f
      then waiting
      else if spread_pct c ≤? c.spread_max_pct
      then pass
      else fail

  unfoldable pub event_max_state : EvaluationContext N → RuleState
  event_max_state c = if ltb c.event_fill_count c.event_max_positions then pass else fail

  unfoldable pub bot_max_state : EvaluationContext N → RuleState
  bot_max_state c = if ltb c.open_position_count c.bot_max_positions then pass else fail

  -- `_DEFAULT_RULES`
  abbrev pub default_rules : List (BaseRule N)
  default_rules =
      record { name = "time"; is_enabled = λ c. c.time_enabled; judge = λ c. ok (time_state c) }
      ∷ record {
        name = "price";
        is_enabled = λ c. c.price_enabled;
        judge = λ c. ok (price_state c);
      }
      ∷ record {
        name = "delta";
        is_enabled = λ c. c.delta_enabled;
        judge = λ c. ok (delta_state c);
      }
      ∷ record {
        name = "spread";
        is_enabled = λ c. c.spread_enabled;
        judge = λ c. ok (spread_state c);
      }
      ∷ record {
        name = "event_max";
        is_enabled = λ c. c.event_max_enabled;
        judge = λ c. ok (event_max_state c);
      }
      ∷ record {
        name = "bot_max";
        is_enabled = λ c. c.bot_max_enabled;
        judge = λ c. ok (bot_max_state c);
      }
      ∷ []
