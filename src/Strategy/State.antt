-- ===== src/Strategy/State.antt =====
-- `RuleState`, `OverallDecision` (backend/strategy/rule_state.py) and `RuleResult`
-- (backend/strategy/base_rule.py). A result's detail dict is for the log and is left out.
use polyfast.Base.{String, Bool, true, false}

-- Of `RuleState`; `pass` and the others are the results of a rule.
pub data RuleState : Type 0 where
  pass fail waiting disabled : RuleState

-- `OverallDecision`
pub data OverallDecision : Type 0 where
  entry no_entry wait no_rules : OverallDecision

pub record RuleResult : Type 0 where
  pub rule_name : String
  pub state : RuleState

abbrev pub passes : RuleResult → Bool
passes r = elim r.state [ pass ↦ true | _ ↦ false ]

abbrev pub fails : RuleResult → Bool
fails r = elim r.state [ fail ↦ true | _ ↦ false ]

abbrev pub waits : RuleResult → Bool
waits r = elim r.state [ waiting ↦ true | _ ↦ false ]
