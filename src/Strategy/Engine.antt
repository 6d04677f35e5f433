-- ===== src/Strategy/Engine.antt =====
-- `RuleEngine` (backend/strategy/engine.py). Every rule is run; one that raises counts as failed.
pub mod Merge
pub mod Entry
use polyfast.Base.{Bool, true, false, List, [], ◌∷◌, map, if◌then◌else◌, Result, ok, err}
use polyfast.Strategy.State.{
  RuleState, pass, fail, waiting, disabled, OverallDecision, entry, no_entry, wait, no_rules,
  RuleResult,
}
use polyfast.Strategy.Context.{EvaluationContext}
use polyfast.Strategy.Rules.{BaseRule, apply_rule, default_rules}
use polyfast.Float.{Float}

-- The flags of `_merge_decision`.
pub record Seen : Type 0 where
  pub has_fail : Bool
  pub has_waiting : Bool
  pub has_pass : Bool

-- One turn of its loop.
unfoldable pub see : RuleState → Seen → Seen
see disabled s = s
see fail s = record s { has_fail = true }
see waiting s = record s { has_waiting = true }
see pass s = record s { has_pass = true }

unfoldable pub see_all : List RuleResult → Seen → Seen
see_all [] s = s
see_all (r ∷ rs) s = see_all rs (see r.state s)

unfoldable pub decide : Seen → OverallDecision
decide s =
    if s.has_fail
    then no_entry
    else if s.has_waiting
    then wait
    else if s.has_pass
    then entry
    else no_rules

-- `_merge_decision`
unfoldable pub merge_decision : List RuleResult → OverallDecision
merge_decision rs =
    decide (see_all rs (record { has_fail = false; has_waiting = false; has_pass = false }))

abbrev pub state_or_fail : Result RuleState → RuleState
state_or_fail (ok state) = state
state_or_fail (err e) = fail

pub record EvaluationResult : Type 0 where
  pub decision : OverallDecision
  pub rule_results : List RuleResult

module _ {N : Type 0} where
  unfoldable pub run_rule : EvaluationContext N → BaseRule N → RuleResult
  run_rule c rule = record { rule_name = rule.name; state = state_or_fail (apply_rule rule c) }

module _ {N : Type 0} ⦃f : Float N⦄ where
  -- `RuleEngine(rules)`: an empty list counts as none given, `rules or list(_DEFAULT_RULES)`.
  unfoldable pub engine_rules : List (BaseRule N) → List (BaseRule N)
  engine_rules [] = default_rules
  engine_rules (rule ∷ rules) = rule ∷ rules

  -- `RuleEngine(rules).evaluate(ctx)`
  unfoldable pub evaluate_rules : List (BaseRule N) → EvaluationContext N → EvaluationResult
  evaluate_rules rules c =
      let results = map (run_rule c) (engine_rules rules) in
      record { decision = merge_decision results; rule_results = results }
