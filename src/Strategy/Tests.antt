-- ===== src/Strategy/Tests.antt =====
-- Decisions of the engine on a sample context.
use polyfast.Base.{◌≡◌, ◌↔◌, ◌++◌, true, refl, List, [], ◌∷◌}
use polyfast.Base.Int.{ℤ, pos}
use polyfast.Float.Fixed.{fixed}
use polyfast.Strategy.State.{entry, pass, waiting, disabled, RuleResult}
use polyfast.Strategy.Context.{EvaluationContext, dominant_only}
use polyfast.Strategy.Rules.{default_rules}
use polyfast.Strategy.Engine.{evaluate_rules, merge_decision}
use polyfast.Strategy.Engine.Merge.{merge_decision-exchange}
use polyfast.Strategy.Engine.Entry.{IsEntry, all_answer, evaluate_rules-IsEntry}

-- BTC at 0.60 asked and 0.59 bid, two minutes before the end.
abbrev context : EvaluationContext ℤ
context = record {
  condition_id = "c1";
  up_bid = pos 59;
  up_ask = pos 60;
  down_bid = pos 40;
  down_ask = pos 41;
  best_bid = pos 59;
  best_ask = pos 60;
  outcome_fresh = true;
  side_mode = dominant_only;
  coin_usd_price = pos 6730000;
  coin_usd_fresh = true;
  ptb_value = pos 6720000;
  ptb_acquired = true;
  seconds_remaining = pos 12000;
  event_fill_count = 0;
  open_position_count = 1;
  time_min_seconds = pos 3000;
  time_max_seconds = pos 27000;
  price_min = pos 5100;
  price_max = pos 8500;
  delta_threshold = pos 5000;
  spread_max_pct = pos 300;
  event_max_positions = 1;
  bot_max_positions = 3;
  time_enabled = true;
  price_enabled = true;
  delta_enabled = true;
  spread_enabled = true;
  event_max_enabled = true;
  bot_max_enabled = true;
}

abbrev passed : List RuleResult
passed = record { rule_name = "time"; state = pass } ∷ []

abbrev waited : List RuleResult
waited = record { rule_name = "price"; state = waiting } ∷ []

abbrev switched_off : List RuleResult
switched_off = record { rule_name = "spread"; state = disabled } ∷ []

evaluate_rules-IsEntry_example :
    ((evaluate_rules default_rules context).decision ≡ entry) ↔ IsEntry context
evaluate_rules-IsEntry_example = evaluate_rules-IsEntry context

none-all_answer : all_answer context [] ≡ true
unfolding all_answer
none-all_answer = refl

merge_decision-exchange_example :
    merge_decision (passed ++ (waited ++ switched_off))
    ≡ merge_decision (waited ++ (passed ++ switched_off))
merge_decision-exchange_example = merge_decision-exchange passed waited switched_off
