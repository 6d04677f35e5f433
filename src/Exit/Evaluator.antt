-- ===== src/Exit/Evaluator.antt =====
-- `ExitEvaluator` (backend/execution/exit_evaluator.py). Of a signal's detail dict the trigger set
-- is kept, which the caller writes into the record; the rest of it is for the log.
pub mod Signals
pub mod ForceSell
use polyfast.Base.{
  ◌+◌, leb, ltb, one_if, String, Bool, true, false, not, ◌&&◌, ◌||◌, Option, none, some, List, [],
  ◌∷◌, if◌then◌else◌,
}
use polyfast.Base.Dict.{Dict, get, put}
use polyfast.Float.{Float, neg, ◌⊖◌, ◌⊘◌, ◌<?◌, ◌≤?◌}
use polyfast.Position.State.{
  CloseReason, take_profit, stop_loss, force_sell, ForceSellTrigger, time, pnl,
}
use polyfast.Position.Record.{PositionRecord, is_open, pnl_pct}

pub record ExitConfig (N : Type 0) : Type 0 where
  pub tp_pct : N
  pub sl_enabled : Bool
  pub sl_pct : N
  pub sl_jump_threshold : N
  pub tp_reevaluate : Bool
  pub fs_time_enabled : Bool
  pub fs_time_seconds : N
  pub fs_pnl_enabled : Bool
  pub fs_pnl_pct : N

pub record ExitSignal (N : Type 0) : Type 0 where
  pub should_exit : Bool
  pub reason : Option CloseReason
  pub pnl_pct_seen : N  -- `pnl_pct`
  pub trigger_set : List ForceSellTrigger

abbrev pub is_take_profit : Option CloseReason → Bool
is_take_profit (some take_profit) = true
is_take_profit _ = false

-- The appends to `trigger_set`, in their order.
abbrev pub triggers : Bool → Bool → List ForceSellTrigger
triggers true true = time ∷ pnl ∷ []
triggers true false = time ∷ []
triggers false true = pnl ∷ []
triggers false false = []

-- `conditions_met >= conditions_required and conditions_required > 0`
abbrev pub enough : Bool → Bool → Bool → Bool → Bool
enough time_on met_time pnl_on met_pnl =
    leb (one_if time_on + one_if pnl_on) (one_if met_time + one_if met_pnl)
    && ltb 0 (one_if time_on + one_if pnl_on)

module _ {N : Type 0} ⦃f : Float N⦄ where
  -- `ExitSignal(should_exit=False)`
  abbrev pub hold : N → ExitSignal N
  hold pct = record { should_exit = false; reason = none; pnl_pct_seen = pct; trigger_set = [] }

  abbrev pub exit_for : CloseReason → N → ExitSignal N
  exit_for reason pct = record {
    should_exit = true;
    reason = some reason;
    pnl_pct_seen = pct;
    trigger_set = [];
  }

  -- `fill_price <= 0 or net_position_shares <= 0`
  abbrev pub has_no_shares : PositionRecord N → Bool
  has_no_shares r = (r.fill_price ≤? f.zero_f) || (r.net_position_shares ≤? f.zero_f)

  -- `_last_prices.get(position_id, current_price)`
  unfoldable pub previous_price : Dict N → String → N → N
  previous_price prices pid price = elim (get prices pid) [ none ↦ price | some p ↦ p ]

  -- The price fell by more than the threshold in one tick.
  unfoldable pub is_jump : ExitConfig N → N → N → Bool
  is_jump c prev price = (f.zero_f <? prev) && (c.sl_jump_threshold <? ((prev ⊖ price) ⊘ prev))

  unfoldable pub judge : ExitConfig N → N → N → N → ExitSignal N
  judge c prev price pct =
      if c.tp_pct ≤? pct
      then exit_for take_profit pct
      else if not c.sl_enabled
      then hold pct
      else if pct ≤? neg c.sl_pct
      then if is_jump c prev price then hold f.zero_f else exit_for stop_loss pct
      else hold pct

  -- The signal, with `_last_prices` as it is afterwards.
  unfoldable pub evaluate : ExitConfig N → Dict N → PositionRecord N → N → ExitSignal N × Dict N
  evaluate c prices r price =
      if not (is_open r)
      then (hold f.zero_f, prices)
      else if has_no_shares r
      then (hold f.zero_f, prices)
      else (
        judge c (previous_price prices r.position_id price) price (pnl_pct r price),
        put prices r.position_id price,
      )

  unfoldable pub should_cancel_close : ExitConfig N → PositionRecord N → N → Bool
  should_cancel_close c r price =
      if not (is_take_profit r.close_reason)
      then false
      else if not c.tp_reevaluate
      then false
      else pnl_pct r price <? c.tp_pct

  -- `seconds_remaining <= self._fs_time_seconds`, where time is selected
  unfoldable pub time_met : ExitConfig N → N → Bool
  time_met c seconds = c.fs_time_enabled && (seconds ≤? c.fs_time_seconds)

  unfoldable pub pnl_waiting : ExitConfig N → Bool → Bool
  pnl_waiting c outcome_fresh = c.fs_pnl_enabled && not outcome_fresh

  unfoldable pub pnl_met : ExitConfig N → Bool → PositionRecord N → N → Bool
  pnl_met c outcome_fresh r price =
      c.fs_pnl_enabled
      && outcome_fresh
      && (f.zero_f <? r.fill_price)
      && (f.zero_f <? r.net_position_shares)
      && (pnl_pct r price ≤? neg c.fs_pnl_pct)

  abbrev pub force_exit : List ForceSellTrigger → ExitSignal N
  force_exit set = record {
    should_exit = true;
    reason = some force_sell;
    pnl_pct_seen = f.zero_f;
    trigger_set = set;
  }

  unfoldable pub evaluate_force_sell : ExitConfig N → PositionRecord N → N → N → Bool → ExitSignal N
  evaluate_force_sell c r price seconds outcome_fresh =
      let met_time = time_met c seconds in
      let met_pnl = pnl_met c outcome_fresh r price in
      if not (is_open r)
      then hold f.zero_f
      else if not c.fs_time_enabled && not c.fs_pnl_enabled
      then hold f.zero_f
      else if pnl_waiting c outcome_fresh && met_time && c.fs_time_enabled
      then force_exit (time ∷ [])
      else if enough c.fs_time_enabled met_time c.fs_pnl_enabled met_pnl
      then force_exit (triggers met_time met_pnl)
      else hold f.zero_f
