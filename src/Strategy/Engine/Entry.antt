-- ===== src/Strategy/Engine/Entry.antt =====
-- When the engine decides on an entry.
use polyfast.Base.{
  ◌≡◌, ◌↔◌, Bool, true, false, not, ◌||◌, ◌&&◌, List, [], ◌∷◌, map, refl, arith, ok, ◌<◌,
}
use polyfast.Base.Lists.{any}
use polyfast.Float.{Float, ◌≤?◌}
use polyfast.Strategy.State.{entry, disabled, passes, fails, waits}
use polyfast.Strategy.Context.{EvaluationContext, evaluated_price_100, spread_pct, delta}
use polyfast.Strategy.Rules.{
  BaseRule, apply_rule, default_rules, time_state, price_state, delta_state, spread_state,
  event_max_state, bot_max_state,
}
use polyfast.Strategy.Engine.{engine_rules, evaluate_rules, run_rule}
use polyfast.Strategy.Engine.Merge.{merge_decision_lem}

-- The rule is off, or holds.
unfoldable pub met : {N : Type 0} → EvaluationContext N → BaseRule N → Bool
met c rule = not (rule.is_enabled c) || passes (run_rule c rule)

unfoldable pub all_met : {N : Type 0} → EvaluationContext N → List (BaseRule N) → Bool
all_met c [] = true
all_met c (rule ∷ rules) = met c rule && all_met c rules

-- A rule that is on does not answer that it is off.
unfoldable pub answers : {N : Type 0} → EvaluationContext N → BaseRule N → Bool
answers c rule = elim (rule.judge c) [ ok disabled ↦ false | _ ↦ true ]

unfoldable pub all_answer : {N : Type 0} → EvaluationContext N → List (BaseRule N) → Bool
all_answer c [] = true
all_answer c (rule ∷ rules) = answers c rule && all_answer c rules

abbrev pub is_on : {N : Type 0} → EvaluationContext N → BaseRule N → Bool
is_on c rule = rule.is_enabled c

met_lem :
    {N : Type 0} (c : EvaluationContext N) (rule : BaseRule N)
    → answers c rule ≡ true
    → met c rule ≡ (not (fails (run_rule c rule)) && not (waits (run_rule c rule)))
unfolding met answers run_rule apply_rule
met_lem c rule h = ground arith

on_lem :
    {N : Type 0} (c : EvaluationContext N) (rule : BaseRule N)
    → answers c rule ≡ true
    → met c rule ≡ true
    → passes (run_rule c rule) ≡ is_on c rule
unfolding met answers run_rule apply_rule
on_lem c rule h k = ground arith

all_met_lem :
    {N : Type 0} (c : EvaluationContext N) (rules : List (BaseRule N))
    → all_answer c rules ≡ true
    → let results = map (run_rule c) rules in
      all_met c rules ≡ (not (any fails results) && not (any waits results))
unfolding all_met all_answer any
all_met_lem c [] h = refl
all_met_lem c (rule ∷ rules) h =
    ground (arith, met_lem c rule (ground arith), all_met_lem c rules (ground arith))

any_on_lem :
    {N : Type 0} (c : EvaluationContext N) (rules : List (BaseRule N))
    → all_answer c rules ≡ true
    → all_met c rules ≡ true
    → any passes (map (run_rule c) rules) ≡ any (is_on c) rules
unfolding all_met all_answer any
any_on_lem c [] h k = refl
any_on_lem c (rule ∷ rules) h k = ground (
  arith,
  on_lem c rule (ground arith) (ground arith),
  any_on_lem c rules (ground arith) (ground arith),
)

-- For any rules that answer: an entry is decided on exactly when some rule is on, and each that is
-- on passes.
pub evaluate_rules-entry :
    {N : Type 0} ⦃f : Float N⦄ (c : EvaluationContext N) (rules : List (BaseRule N))
    → all_answer c (engine_rules rules) ≡ true
    → ((evaluate_rules rules c).decision ≡ entry)
      ↔ ((any (is_on c) (engine_rules rules) ≡ true) × (all_met c (engine_rules rules) ≡ true))
unfolding evaluate_rules
evaluate_rules-entry c given h =
    let rules = engine_rules given in
    let merged = merge_decision_lem (map (run_rule c) rules) in
    let all = all_met_lem c rules h in
    (
      λ e.
          let k : all_met c rules ≡ true = ground (arith, merged, all) in
          (ground (arith, merged, all, any_on_lem c rules h k), k),
      λ e. ground (arith, merged, all, any_on_lem c rules h e.1),
    )

module _ {N : Type 0} ⦃f : Float N⦄ where
  -- What an entry needs: some rule is switched on, and each rule that is holds on data that is there.
  pub record IsEntry (c : EvaluationContext N) : Type 0 where
    pub some_rule :
        (c.time_enabled || c.price_enabled || c.delta_enabled || c.spread_enabled
          || c.event_max_enabled || c.bot_max_enabled)
        ≡ true
    pub in_time :
        c.time_enabled ≡ true
        → ((c.seconds_remaining ≤? f.zero_f) ≡ false)
          × ((c.time_min_seconds ≤? c.seconds_remaining) ≡ true)
          × ((c.seconds_remaining ≤? c.time_max_seconds) ≡ true)
    pub in_price :
        c.price_enabled ≡ true
        → (c.outcome_fresh ≡ true)
          × ((c.price_min ≤? evaluated_price_100 c) ≡ true)
          × ((evaluated_price_100 c ≤? c.price_max) ≡ true)
    pub moved :
        c.delta_enabled ≡ true
        → (c.ptb_acquired ≡ true)
          × (c.coin_usd_fresh ≡ true)
          × ((c.delta_threshold ≤? delta c) ≡ true)
    pub tight :
        c.spread_enabled ≡ true
        → (c.outcome_fresh ≡ true)
          × ((c.best_ask ≤? f.zero_f) ≡ false)
          × ((spread_pct c ≤? c.spread_max_pct) ≡ true)
    pub event_room : c.event_max_enabled ≡ true → c.event_fill_count < c.event_max_positions
    pub bot_room : c.bot_max_enabled ≡ true → c.open_position_count < c.bot_max_positions

  default_rules-all_answer : (c : EvaluationContext N) → all_answer c default_rules ≡ true
  unfolding all_answer answers time_state price_state delta_state spread_state event_max_state
      bot_max_state
  default_rules-all_answer c = ground arith

  all_met-IsEntry :
      (c : EvaluationContext N)
      → any (is_on c) default_rules ≡ true
      → all_met c default_rules ≡ true
      → IsEntry c
  unfolding all_met met any run_rule apply_rule time_state price_state delta_state spread_state
      event_max_state bot_max_state
  all_met-IsEntry c on h = record {
    some_rule = ground arith;
    in_time = λ e. ground arith;
    in_price = λ e. ground arith;
    moved = λ e. ground arith;
    tight = λ e. ground arith;
    event_room = λ e. ground arith;
    bot_room = λ e. ground arith;
  }

  IsEntry-all_met :
      (c : EvaluationContext N)
      → IsEntry c
      → (any (is_on c) default_rules ≡ true) × (all_met c default_rules ≡ true)
  unfolding all_met met any run_rule apply_rule time_state price_state delta_state spread_state
      event_max_state bot_max_state
  IsEntry-all_met c h = (
    ground (arith, h.some_rule),
    ground (arith, h.in_time, h.in_price, h.moved, h.tight, h.event_room, h.bot_room),
  )

  -- The engine with its six rules decides on an entry exactly when some rule is switched on, and
  -- every one that is finds its data present and its condition met.
  pub evaluate_rules-IsEntry :
      (c : EvaluationContext N) → ((evaluate_rules default_rules c).decision ≡ entry) ↔ IsEntry c
  unfolding engine_rules
  evaluate_rules-IsEntry c =
      let general = evaluate_rules-entry c default_rules (default_rules-all_answer c) in
      (λ e. let k = general.0 e in all_met-IsEntry c k.0 k.1, λ h. general.1 (IsEntry-all_met c h))
