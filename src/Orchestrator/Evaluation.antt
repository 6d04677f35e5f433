-- ===== src/Orchestrator/Evaluation.antt =====
-- `EvaluationLoop` (backend/orchestrator/evaluation_loop.py): the evaluation of the eligible coins and
-- the orders that follow. The exchange's replies to an order are arguments, and no other task runs
-- while it is on its way. `upper` is Python's `str.upper`, `num` an int as a float.
pub mod Lookup
pub mod Found
pub mod Judged
pub mod Dispatch
pub mod Switch
mod Tests
use polyfast.Base.{
  ℕ, ◌+◌, String, Bool, true, false, not, ◌&&◌, ◌||◌, Option, none, some, List, [], ◌∷◌,
  if◌then◌else◌, str_eq,
}
use polyfast.Base.Dict.{Dict, get, put, values}
use polyfast.Float.{Float, ◌<?◌, ◌≤?◌}
use polyfast.Settings.Coin.{CoinSettings}
use polyfast.Settings.Store.{Store, get_eligible_coins}
use polyfast.Strategy.State.{OverallDecision, entry}
use polyfast.Strategy.Context.{EvaluationContext, evaluated_side}
use polyfast.Strategy.Rules.{BaseRule}
use polyfast.Strategy.Engine.{EvaluationResult, evaluate_rules}
use polyfast.Registry.Service.{Records}
use polyfast.Ptb.Fetcher.{PtbRecords}
use polyfast.Balance.{FetchReply}
use polyfast.Position.Tracker.{get_event_fill_count, open_position_count}
use polyfast.Orders.Intent.{OrderIntent, OrderSide, up, down}
use polyfast.Orders.Executor.{Config, Desk, Reply, execute}
use polyfast.Market.LivePrice.{LivePriceRecord, Pipeline, get_record}
use polyfast.Market.Bridge.{TokenRoute}
use polyfast.Market.CoinPrices.{CoinPrices, get_price}
use polyfast.Orchestrator.Slots.{slug_start, is_current}
use polyfast.Orchestrator.Evaluation.Lookup.{
  Moment, find_current, find_token, price_record, ptb_record, quotes_of, context_of,
}

-- The loop with the objects that it reads and works on.
pub record Trader (N : Type 0) : Type 0 where
  pub settings : Store N
  pub pipeline : Pipeline N
  pub coin_prices : CoinPrices N
  pub ptb : PtbRecords N
  pub registry : Records
  pub token_routes : Dict TokenRoute
  pub desk : Desk N
  pub order_dispatch_enabled : Bool
  pub eval_count : ℕ
  pub entry_count : ℕ
  pub last_results : Dict EvaluationResult

-- The loop's settings.
pub record EvaluationConfig (N : Type 0) : Type 0 where
  pub rules : List (BaseRule N)
  pub bot_max_positions : ℕ
  pub paper_mode : Bool
  pub orders : Config N

-- The replies to an order: its position's identifier, the exchange's reply, and the balance's.
pub record OrderReply (N : Type 0) : Type 0 where
  pub pid : String
  pub reply : Reply N
  pub fetched : FetchReply N

module _ {N : Type 0} where
  unfoldable pub enable_order_dispatch : Trader N → Trader N
  enable_order_dispatch t = record t { order_dispatch_enabled = true }

  unfoldable pub disable_order_dispatch : Trader N → Trader N
  disable_order_dispatch t = record t { order_dispatch_enabled = false }

abbrev pub is_entry : OverallDecision → Bool
is_entry entry = true
is_entry _ = false

-- The guard of the current slot: the registry's event, where its slug can be read, is not live.
unfoldable pub is_out_of_slot : ℕ → String → Records → Bool
is_out_of_slot unix cid d = elim (get d cid) [
  | none ↦ false
  | some r ↦ (elim (slug_start r.slug) [ none ↦ false | some start ↦ not (is_current unix start) ])
]

-- `side_str == 'UP'`
abbrev pub side_of : String → OrderSide
side_of s = if str_eq s "UP" then up else down

module _ {N : Type 0} ⦃f : Float N⦄ where
  -- The ask of the side, or its bid where the ask is not above 0.
  unfoldable pub entry_price : String → LivePriceRecord N → N
  entry_price side r =
      if str_eq side "UP"
      then (if f.zero_f <? r.up_ask then r.up_ask else r.up_bid)
      else if f.zero_f <? r.down_ask
      then r.down_ask
      else r.down_bid

module _ {N : Type 0} ⦃f : Float N⦄ (upper : String → String) (num : ℕ → N) (k : EvaluationConfig N)
    (m : Moment N) where
  -- `_find_current_slot_condition_id`
  unfoldable pub current_cid : CoinSettings N → Trader N → String
  current_cid c t = find_current upper c.coin m.unix (values t.registry)

  -- `_evaluate_single`: the result with the context that was judged, and the loop.
  unfoldable pub evaluate_single :
      CoinSettings N → Trader N → EvaluationResult × EvaluationContext N × Trader N
  evaluate_single c t =
      let (price, p) = price_record upper (current_cid c t) c.coin m.now t.pipeline in
      let q = quotes_of price in
      let (coin, s) = get_price c.coin m.now t.coin_prices in
      let fills =
        if str_eq q.condition_id ""
        then 0
        else get_event_fill_count t.desk.tracker q.condition_id in
      let x =
        context_of num m c q coin (ptb_record upper q.condition_id c.coin t.ptb) fills
          (open_position_count t.desk.tracker) k.bot_max_positions in
      let result = evaluate_rules k.rules x in
      (
        result,
        x,
        record t { pipeline = p; coin_prices = s; last_results = put t.last_results c.coin result },
      )

  -- The order of `_dispatch_entry`, none where it returns before, from the price record on.
  unfoldable pub intent_of :
      CoinSettings N → String → LivePriceRecord N → Trader N → Option (OrderIntent N)
  intent_of c side r t =
      let cid = current_cid c t in
      let token = find_token upper c.coin side cid t.token_routes in
      let price = entry_price side r in
      if is_out_of_slot m.unix cid t.registry || str_eq token "" || (price ≤? f.zero_f)
      then none
      else some (record {
        asset = c.coin;
        side = side_of side;
        amount_usd = c.order_amount;
        condition_id = cid;
        token_id = token;
        dominant_price = price;
        event_max = c.event_max;
      })

  -- The call of the executor; its exceptions are caught.
  unfoldable pub place_order : OrderReply N → Option (OrderIntent N) → Trader N → Trader N
  place_order w none t = t
  place_order w (some i) t = record t {
    desk = (execute k.orders w.pid m.now i w.reply w.fetched t.desk).1;
  }

  -- `_dispatch_entry` from the price record on.
  unfoldable pub dispatch_on :
      CoinSettings N
      → String
      → OrderReply N
      → Trader N
      → Option (LivePriceRecord N) × Pipeline N
      → Trader N
  dispatch_on c side w t (none, p) = record t { pipeline = p }
  dispatch_on c side w t (some r, p) =
      place_order w (intent_of c side r t) (record t { pipeline = p })

  -- `_dispatch_entry`
  unfoldable pub dispatch_entry : CoinSettings N → String → OrderReply N → Trader N → Trader N
  dispatch_entry c side w t =
      if str_eq (current_cid c t) ""
      then t
      else dispatch_on c side w t (get_record (current_cid c t) m.now t.pipeline)

  -- A turn of `_evaluate_all_eligible`. The replies are those to an order of this coin.
  unfoldable pub evaluate_coin : OrderReply N → CoinSettings N → Trader N → Trader N
  evaluate_coin w c t =
      let (result, x, t') = evaluate_single c t in
      let seen : Trader N = record t' {
        eval_count = t'.eval_count + 1;
        entry_count = if is_entry result.decision then t'.entry_count + 1 else t'.entry_count;
      } in
      if is_entry result.decision && (seen.order_dispatch_enabled || k.paper_mode)
      then dispatch_entry c (evaluated_side x) w seen
      else seen

  unfoldable pub evaluate_coins :
      (String → OrderReply N) → List (CoinSettings N) → Trader N → Trader N
  evaluate_coins replies [] t = t
  evaluate_coins replies (c ∷ cs) t = evaluate_coins replies cs (evaluate_coin (replies c.coin) c t)

  -- `_evaluate_all_eligible`
  unfoldable pub evaluate_all_eligible : (String → OrderReply N) → Trader N → Trader N
  evaluate_all_eligible replies t = evaluate_coins replies (get_eligible_coins upper t.settings) t
