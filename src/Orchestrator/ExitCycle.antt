-- ===== src/Orchestrator/ExitCycle.antt =====
-- `ExitOrchestrator` (backend/orchestrator/exit_orchestrator.py): one cycle over the positions, from the
-- exit evaluation over the sales and the settlement to the reconciliation of claims. The balance is
-- one object, which the seller and the claims share. No other task runs within a cycle.
pub mod Triggers
pub mod Loop
pub mod Reconcile
use polyfast.Base.{
  ℕ, ◌+◌, String, Bool, true, false, not, ◌||◌, Option, none, some, List, [], ◌∷◌, if◌then◌else◌,
  str_eq, count_when, Error, Result, ok, err,
}
use polyfast.Base.Dict.{Dict, get, values}
use polyfast.Base.Lists.{any, select}
use polyfast.Float.{Float, ◌⊕◌, ◌≤?◌}
use polyfast.Balance.{FetchReply}
use polyfast.Position.State.{
  closing_requested, close_failed, is_state, CloseReason, force_sell, ForceSellTrigger,
}
use polyfast.Position.Record.{PositionRecord, is_open}
use polyfast.Position.Tracker.{Tracker, Call, request_close}
use polyfast.Exit.Evaluator.{ExitConfig, evaluate, evaluate_force_sell}
use polyfast.Exit.Executor.{SellConfig, Seller, SellReply, execute_close}
use polyfast.Claims.Record.{ClaimRecord, is_pending}
use polyfast.Claims.Manager.{mark_externally_settled}
use polyfast.Settlement.World.{World}
use polyfast.Settlement.Pass.{Settling, process_settlements}

-- The arguments of `run_cycle`.
pub record Inputs (N : Type 0) : Type 0 where
  pub current_prices : Dict N  -- by asset
  pub remaining_seconds : Dict N  -- by asset
  pub stale_assets : List String

pub record Exits (N : Type 0) : Type 0 where
  pub seller : Seller N
  pub last_prices : Dict N  -- of the evaluator, by position_id
  pub settling : Settling N
  pub cycle_count : ℕ

-- What the exchange replies to the sales, by position_id.
pub record Replies (N : Type 0) : Type 0 where
  pub wrapper_set : Bool
  pub sells : String → SellReply N
  pub fetched : String → FetchReply N

-- A reason to close and its triggers.
abbrev pub Exit : Type 0
Exit = CloseReason × List ForceSellTrigger

-- What one turn over an open position does.
pub record Visited (N : Type 0) : Type 0 where
  pub raised : Option Error
  pub triggered : Bool
  pub after : Exits N

module _ {N : Type 0} where
  -- `d.get(k, default)`
  abbrev pub get_or : N → Option N → N
  get_or default none = default
  get_or default (some x) = x

  abbrev pub with_tracker : Tracker N → Exits N → Exits N
  with_tracker t s = record s { seller = record (s.seller) { tracker = t } }

  abbrev pub is_closing : PositionRecord N → Bool
  is_closing p = is_state p.state closing_requested || is_state p.state close_failed

module _ {N : Type 0} ⦃f : Float N⦄ where
  -- `current_prices.get(asset, 0.0)`
  abbrev pub price_in : Inputs N → PositionRecord N → N
  price_in i p = get_or f.zero_f (get i.current_prices p.asset)

  -- `remaining_seconds.get(asset, 300.0)`
  abbrev pub seconds_in : Inputs N → PositionRecord N → N
  seconds_in i p = get_or (f.hundred ⊕ f.hundred ⊕ f.hundred) (get i.remaining_seconds p.asset)

  unfoldable pub force_exit_of : ExitConfig N → N → N → Bool → PositionRecord N → Option Exit
  force_exit_of c price seconds outcome_fresh p =
      let signal = evaluate_force_sell c p price seconds outcome_fresh in
      if signal.should_exit then some (force_sell, signal.trigger_set) else none

  -- A signal to exit has a reason.
  unfoldable pub price_exit_of :
      ExitConfig N → N → N → PositionRecord N → Dict N → Option Exit × Dict N
  price_exit_of c price seconds p last =
      let (signal, last') = evaluate c last p price in
      (
        if signal.should_exit
            then (elim signal.reason [ none ↦ none | some reason ↦ some (reason, []) ])
            else force_exit_of c price seconds true p,
        last',
      )

  -- What one turn asks for, and the evaluator's last prices: nothing without a price, on a stale
  -- asset a force sell alone, else take-profit or stop-loss before a force sell.
  unfoldable pub exit_of :
      ExitConfig N → Inputs N → PositionRecord N → Dict N → Option Exit × Dict N
  exit_of c i p last =
      if price_in i p ≤? f.zero_f
      then (none, last)
      else if any (λ a. str_eq a p.asset) i.stale_assets
      then (force_exit_of c (price_in i p) (seconds_in i p) false p, last)
      else price_exit_of c (price_in i p) (seconds_in i p) p last

  after_request : Exits N → Call N → Visited N
  after_request s (ok r, t) = record { raised = none; triggered = true; after = with_tracker t s }
  after_request s (err e, t) = record {
    raised = some e;
    triggered = false;
    after = with_tracker t s;
  }

  -- `request_close` where there is something to ask for.
  request_exit : ℕ → PositionRecord N → Exits N → Option Exit → Visited N
  request_exit now p s none = record { raised = none; triggered = false; after = s }
  request_exit now p s (some exit) =
      after_request s (request_close p.position_id exit.0 exit.1 f.zero_f now s.seller.tracker)

  -- One turn of the loop over the open positions.
  unfoldable pub visit_open : ExitConfig N → Inputs N → ℕ → PositionRecord N → Exits N → Visited N
  unfolding request_exit after_request
  visit_open c i now p s =
      let (exit, last) = exit_of c i p s.last_prices in
      request_exit now p (record s { last_prices = last }) exit

  -- The loop: an exception or none, the triggers counted, and the state.
  unfoldable pub trigger_exits :
      ExitConfig N → Inputs N → ℕ → List (PositionRecord N) → Exits N → Option Error × ℕ × Exits N
  trigger_exits c i now [] s = (none, 0, s)
  trigger_exits c i now (p ∷ ps) s =
      let v = visit_open c i now p s in
      elim v.raised [
        | none ↦
            let (raised, n, s') = trigger_exits c i now ps v.after in
            (raised, count_when v.triggered n, s')
        | some e ↦ (some e, 0, v.after)
      ]

  after_sale : Exits N → Result Bool × Seller N → Option Error × Bool × Exits N
  after_sale s (ok done, seller) = (none, done, record s { seller = seller })
  after_sale s (err e, seller) = (some e, false, record s { seller = seller })

  -- The loop over the positions that are closing; an asset without a price has the price 0.
  unfoldable pub execute_closes :
      SellConfig N
      → Replies N
      → Inputs N
      → ℕ
      → List (PositionRecord N)
      → Exits N
      → Option Error × ℕ × Exits N
  unfolding after_sale
  execute_closes c x i now [] s = (none, 0, s)
  execute_closes c x i now (p ∷ ps) s =
      let pid = p.position_id in
      let (raised, done, s') = after_sale s (
        execute_close c pid now (price_in i p) x.wrapper_set (x.sells pid) (x.fetched pid)
          s.seller) in
      elim raised [
        | none ↦
            let (raised', n, s'') = execute_closes c x i now ps s' in
            (raised', count_when done n, s'')
        | some e ↦ (some e, 0, s')
      ]

module _ {N : Type 0} where
  -- `is_position_in_retry`
  unfoldable pub is_position_in_retry : Settling N → String → Bool
  is_position_in_retry s pid = elim (get s.retries pid) [ none ↦ false | some e ↦ not e.exhausted ]

  -- The loop over the pending claims.
  unfoldable pub reconcile_claims : ℕ → List (ClaimRecord N) → Settling N → ℕ × Settling N
  reconcile_claims now [] s = (0, s)
  reconcile_claims now (c ∷ cs) s =
      let waits = is_position_in_retry s c.position_id in
      let s' =
        if waits
        then s
        else record s { claims = (mark_externally_settled c.claim_id now s.claims).1 } in
      let rest = reconcile_claims now cs s' in (count_when (not waits) rest.0, rest.1)

  -- `_reconcile_external`
  unfoldable pub reconcile_external : ℕ → Settling N → ℕ × Settling N
  reconcile_external now s = reconcile_claims now (select is_pending (values s.claims.claims)) s

  -- The balance object of the seller is the one of the claims.
  abbrev pub share_balance : Exits N → Exits N
  share_balance s = record s {
    settling = record (s.settling) {
      claims = record (s.settling.claims) { balance = s.seller.balance };
    };
  }

  abbrev pub take_balance : Exits N → Exits N
  take_balance s = record s { seller = record (s.seller) { balance = s.settling.claims.balance } }

-- The dict that `run_cycle` returns.
pub record CycleResult : Type 0 where
  pub cycle : ℕ
  pub triggers : ℕ
  pub closes : ℕ
  pub settlements : ℕ
  pub reconciled : ℕ

module _ {N : Type 0} ⦃f : Float N⦄ where
  -- Settlement and reconciliation.
  unfoldable pub settle_cycle : World N → ℕ → ℕ → Exits N → CycleResult × Exits N
  settle_cycle w triggers closes s =
      let settled = process_settlements w s.seller.tracker.positions (share_balance s).settling in
      let reconciled = reconcile_external w.now settled.1 in
      (
        record {
          cycle = s.cycle_count;
          triggers = triggers;
          closes = closes;
          settlements = settled.0;
          reconciled = reconciled.0;
        },
        take_balance (record s { settling = reconciled.1 }),
      )

  -- `run_cycle`, at the time `w.now`.
  unfoldable pub run_cycle :
      ExitConfig N
      → SellConfig N
      → World N
      → Replies N
      → Inputs N
      → Exits N
      → Result CycleResult × Exits N
  run_cycle c sc w x i s =
      let s₀ = record s { cycle_count = s.cycle_count + 1 } in
      let open_ = select is_open (values s₀.seller.tracker.positions) in
      let (raised, triggers, s₁) = trigger_exits c i w.now open_ s₀ in
      elim raised [
        | some e ↦ (err e, s₁)
        | none ↦
            let closing = select is_closing (values s₁.seller.tracker.positions) in
            let (raised', closes, s₂) = execute_closes sc x i w.now closing s₁ in
            elim raised' [
              | some e ↦ (err e, s₂)
              | none ↦ let (result, s₃) = settle_cycle w triggers closes s₂ in (ok result, s₃)
            ]
      ]
