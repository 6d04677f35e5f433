-- ===== src/Orchestrator/Evaluation/Lookup.antt =====
-- What `EvaluationLoop` (backend/orchestrator/evaluation_loop.py) reads to fill an evaluation's context.
-- `upper` is Python's `str.upper`, `num` an int as a float.
use polyfast.Base.{
  ℕ, ◌+◌, String, Bool, true, false, ◌&&◌, Option, none, some, List, [], ◌∷◌, if◌then◌else◌, str_eq,
}
use polyfast.Base.Dict.{Dict, get, values}
use polyfast.Float.{Float, ◌⊖◌, ◌<?◌, ◌≤?◌}
use polyfast.Settings.Coin.{CoinSettings}
use polyfast.Strategy.Context.{EvaluationContext}
use polyfast.Registry.Status.{RegistryRecord}
use polyfast.Ptb.Record.{PtbRecord, is_locked}
use polyfast.Ptb.Fetcher.{PtbRecords}
use polyfast.Market.LivePrice.{
  LivePriceRecord, Pipeline, fresh, is_status, get_record, get_record_by_asset,
}
use polyfast.Market.Bridge.{TokenRoute}
use polyfast.Market.CoinPrices.{CoinPriceRecord, is_fresh_status}
use polyfast.Orchestrator.Slots.{is_live, slot_seconds, current_slot_start}

-- The time of an evaluation: on the clock of the records, in whole seconds, and as a float.
pub record Moment (N : Type 0) : Type 0 where
  pub now : ℕ
  pub unix : ℕ
  pub unix_f : N

module _ (upper : String → String) where
  -- The loop of `_find_current_slot_condition_id`.
  unfoldable pub find_current : String → ℕ → List RegistryRecord → String
  find_current asset unix [] = ""
  find_current asset unix (r ∷ rs) =
      let rest = find_current asset unix rs in
      if str_eq (upper r.asset) (upper asset) && is_live unix r.slug then r.condition_id else rest

  -- The loop over the routes in `_dispatch_entry`.
  unfoldable pub find_token : String → String → String → Dict TokenRoute → String
  find_token asset side cid [] = ""
  find_token asset side cid ((tid, r) ∷ d) =
      let rest = find_token asset side cid d in
      if str_eq (upper r.asset) (upper asset)
        && str_eq (upper r.side) side
        && str_eq r.condition_id cid
      then tid
      else rest

module _ {N : Type 0} where
  -- The read by the event's condition, if there is one.
  unfoldable pub read_by_cid : String → ℕ → Pipeline N → Option (LivePriceRecord N) × Pipeline N
  read_by_cid cid now p = if str_eq cid "" then (none, p) else get_record cid now p

module _ {N : Type 0} (upper : String → String) where
  -- The loop of `PTBFetcher.get_record_by_asset`, with the best record so far.
  unfoldable pub ptb_by_asset :
      String → List (PtbRecord N) → Option (PtbRecord N) → Option (PtbRecord N)
  ptb_by_asset asset [] best = best
  ptb_by_asset asset (r ∷ rs) best =
      let same = str_eq (upper r.asset) (upper asset) in
      let rest = ptb_by_asset asset rs (if same then some r else best) in
      if same && is_locked r then some r else rest

  -- The fallback to the asset.
  unfoldable pub or_by_asset :
      String → ℕ → Option (LivePriceRecord N) × Pipeline N → Option (LivePriceRecord N) × Pipeline N
  or_by_asset asset now (some r, p) = (some r, p)
  or_by_asset asset now (none, p) = get_record_by_asset upper asset now p

  -- The price record, and the pipeline as it was read.
  unfoldable pub price_record :
      String → String → ℕ → Pipeline N → Option (LivePriceRecord N) × Pipeline N
  price_record cid asset now p = or_by_asset asset now (read_by_cid cid now p)

  unfoldable pub ptb_record : String → String → PtbRecords N → Option (PtbRecord N)
  ptb_record cid asset d =
      let by_asset = ptb_by_asset asset (values d) none in
      if str_eq cid "" then by_asset else (elim (get d cid) [ some r ↦ some r | none ↦ by_asset ])

-- The values of the context that come from the price record.
pub record Quotes (N : Type 0) : Type 0 where
  pub condition_id : String
  pub up_bid : N
  pub up_ask : N
  pub down_bid : N
  pub down_ask : N
  pub outcome_fresh : Bool

module _ {N : Type 0} ⦃f : Float N⦄ where
  unfoldable pub quotes_of : Option (LivePriceRecord N) → Quotes N
  quotes_of (some r) = record {
    condition_id = r.condition_id;
    up_bid = r.up_bid;
    up_ask = r.up_ask;
    down_bid = r.down_bid;
    down_ask = r.down_ask;
    outcome_fresh = is_status r.status fresh;
  }
  quotes_of none = record {
    condition_id = "";
    up_bid = f.zero_f;
    up_ask = f.zero_f;
    down_bid = f.zero_f;
    down_ask = f.zero_f;
    outcome_fresh = false;
  }

  -- `coin_record.usd_price if coin_record else 0.0`
  abbrev pub usd_of : Option (CoinPriceRecord N) → N
  usd_of none = f.zero_f
  usd_of (some r) = r.usd_price

  abbrev pub usd_fresh : Option (CoinPriceRecord N) → Bool
  usd_fresh none = false
  usd_fresh (some r) = is_fresh_status r.status

  -- `ptb_record.ptb_value if ptb_record and ptb_record.is_locked else 0.0`
  abbrev pub locked_value : Option (PtbRecord N) → N
  locked_value none = f.zero_f
  locked_value (some r) = elim r.ptb_value [
    | none ↦ f.zero_f
    | some x ↦ if is_locked r then x else f.zero_f
  ]

  abbrev pub is_locked_some : Option (PtbRecord N) → Bool
  is_locked_some none = false
  is_locked_some (some r) = is_locked r

  -- `(slot_start + SLOT_SECONDS) - now`
  unfoldable pub seconds_left : (ℕ → N) → Moment N → N
  seconds_left num m = num (current_slot_start m.unix + slot_seconds) ⊖ m.unix_f

  -- The context of `_evaluate_single`; the counts are the event's fills and the open positions.
  unfoldable pub context_of :
      (ℕ → N)
      → Moment N
      → CoinSettings N
      → Quotes N
      → Option (CoinPriceRecord N)
      → Option (PtbRecord N)
      → ℕ
      → ℕ
      → ℕ
      → EvaluationContext N
  context_of num m c q coin ptb fills open_count bot_max = record {
    condition_id = q.condition_id;
    up_bid = q.up_bid;
    up_ask = q.up_ask;
    down_bid = q.down_bid;
    down_ask = q.down_ask;
    best_bid = if q.up_bid <? q.down_bid then q.down_bid else q.up_bid;
    best_ask = if q.down_bid ≤? q.up_bid then q.up_ask else q.down_ask;
    outcome_fresh = q.outcome_fresh;
    side_mode = c.side_mode;
    coin_usd_price = usd_of coin;
    coin_usd_fresh = usd_fresh coin;
    ptb_value = locked_value ptb;
    ptb_acquired = is_locked_some ptb;
    seconds_remaining = seconds_left num m;
    event_fill_count = fills;
    open_position_count = open_count;
    time_min_seconds = c.time_min;
    time_max_seconds = c.time_max;
    price_min = c.price_min;
    price_max = c.price_max;
    delta_threshold = c.delta_threshold;
    spread_max_pct = c.spread_max;
    event_max_positions = c.event_max;
    bot_max_positions = bot_max;
    time_enabled = f.zero_f <? c.time_min;
    price_enabled = f.zero_f <? c.price_min;
    delta_enabled = f.zero_f <? c.delta_threshold;
    spread_enabled = f.zero_f <? c.spread_max;
    event_max_enabled = true;
    bot_max_enabled = true;
  }
