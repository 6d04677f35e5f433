-- ===== src/Market/LivePrice.antt =====
-- `LivePriceRecord` and `LivePricePipeline` (backend/market_data/live_price.py). Time is counted in a
-- unit of the clock. `lower` is Python's `str.lower`, `upper` its `str.upper`.
pub mod Runs
pub mod Sent
pub mod Sound
pub mod Reads
use polyfast.Base.{
  ℕ, ◌+◌, String, Bool, true, false, not, ◌&&◌, ◌||◌, Option, none, some, List, [], ◌∷◌,
  if◌then◌else◌, ltb, leb, str_eq,
}
use polyfast.Base.Dict.{Dict, get, put, remove, values}
use polyfast.Base.Lists.{count_if}
use polyfast.Float.{Float, ◌⊕◌, ◌⊖◌, ◌⊘◌, ◌<?◌, ◌≤?◌}

-- `PriceStatus`
pub data PriceStatus : Type 0 where
  fresh stale invalid waiting : PriceStatus

abbrev pub is_status : PriceStatus → PriceStatus → Bool
is_status fresh fresh = true
is_status stale stale = true
is_status invalid invalid = true
is_status waiting waiting = true
is_status _ _ = false

pub record LivePriceRecord (N : Type 0) : Type 0 where
  pub condition_id : String
  pub asset : String
  pub up_bid : N
  pub up_ask : N
  pub down_bid : N
  pub down_ask : N
  pub spread : N
  pub status : PriceStatus
  pub updated_at : Option ℕ
  pub source : String
  pub stale_threshold : ℕ

pub record Pipeline (N : Type 0) : Type 0 where
  pub records : Dict (LivePriceRecord N)  -- by condition_id
  pub threshold : ℕ

module _ {N : Type 0} where
  -- `is_stale`: more than the threshold has passed since the update.
  unfoldable pub is_stale : ℕ → LivePriceRecord N → Bool
  is_stale now r = elim r.updated_at [ none ↦ false | some at ↦ ltb (at + r.stale_threshold) now ]

  unfoldable pub is_fresh : ℕ → LivePriceRecord N → Bool
  is_fresh now r =
      if is_status r.status invalid
      then false
      else (elim r.updated_at [ none ↦ false | some at ↦ leb now (at + r.stale_threshold) ])

  abbrev pub is_valid : LivePriceRecord N → Bool
  is_valid r = is_status r.status fresh || is_status r.status stale

  unfoldable pub check_freshness : ℕ → LivePriceRecord N → LivePriceRecord N
  check_freshness now r =
      if is_status r.status invalid || is_status r.status waiting
      then r
      else if is_stale now r
      then record r { status = stale }
      else r

module _ {N : Type 0} ⦃f : Float N⦄ where
  unfoldable pub best_bid : LivePriceRecord N → N
  best_bid r = if r.down_bid ≤? r.up_bid then r.up_bid else r.down_bid

  unfoldable pub best_ask : LivePriceRecord N → N
  best_ask r = if r.down_bid ≤? r.up_bid then r.up_ask else r.down_ask

  midpoint : N → N → N
  midpoint bid ask =
      if (f.zero_f <? bid) && (f.zero_f <? ask)
      then f.round ((bid ⊕ ask) ⊘ (f.one_f ⊕ f.one_f)) 4
      else bid

  unfoldable pub display_up : LivePriceRecord N → N
  unfolding midpoint
  display_up r = midpoint r.up_bid r.up_ask

  unfoldable pub display_down : LivePriceRecord N → N
  unfolding midpoint
  display_down r = midpoint r.down_bid r.down_ask

  -- `_is_valid_price`, `_is_valid_ws_price`
  unfoldable pub is_valid_price : N → Bool
  is_valid_price p = (f.zero_f <? p) && (p ≤? f.one_f)

  -- The record that `_get_or_create` makes.
  unfoldable pub new_price : String → String → ℕ → LivePriceRecord N
  new_price cid asset threshold = record {
    condition_id = cid;
    asset = asset;
    up_bid = f.zero_f;
    up_ask = f.zero_f;
    down_bid = f.zero_f;
    down_ask = f.zero_f;
    spread = f.zero_f;
    status = waiting;
    updated_at = none;
    source = "";
    stale_threshold = threshold;
  }

  -- The spread of the side that leads, and the marks of an update.
  unfoldable pub quoted : ℕ → LivePriceRecord N → LivePriceRecord N
  quoted now r = record r {
    spread =
        if (f.zero_f <? best_bid r) && (f.zero_f <? best_ask r)
        then f.round (best_ask r ⊖ best_bid r) 4
        else r.spread;
    status = fresh;
    updated_at = some now;
    source = "rtds_ws";
  }

  -- What `update_from_ws` does to the record.
  unfoldable pub ws_record :
      (String → String) → String → N → N → ℕ → LivePriceRecord N → LivePriceRecord N
  ws_record lower side bid ask now r =
      if not (is_valid_price bid) || not (is_valid_price ask)
      then (if is_status r.status waiting then record r { status = invalid } else r)
      else if str_eq (lower side) "up"
      then quoted now (record r { up_bid = bid; up_ask = ask })
      else if str_eq (lower side) "down"
      then quoted now (record r { down_bid = bid; down_ask = ask })
      else r

-- `outcomePrices` after `json.loads`, and `float` of its items; `none` where that raises.
pub data OutcomePrices (N : Type 0) : Type 0 where
  no_list : OutcomePrices N
  prices : List (Option N) → OutcomePrices N

-- `_parse_outcome_prices`
unfoldable pub parse_outcome_prices : {N : Type 0} → OutcomePrices N → Option (N × N)
parse_outcome_prices (prices (some up ∷ some down ∷ _)) = some (up, down)
parse_outcome_prices _ = none

module _ {N : Type 0} ⦃f : Float N⦄ where
  -- What `update_from_gamma` does to the record.
  unfoldable pub gamma_record : OutcomePrices N → N → ℕ → LivePriceRecord N → LivePriceRecord N
  gamma_record raw spread now r = elim (parse_outcome_prices raw) [
    | none ↦ record r { status = invalid }
    | some pair ↦
        if not (is_valid_price pair.0) || not (is_valid_price pair.1)
        then record r { status = invalid }
        else record r {
          up_bid = pair.0;
          up_ask = pair.0;
          down_bid = pair.1;
          down_ask = pair.1;
          spread = spread;
          status = fresh;
          updated_at = some now;
          source = "gamma_outcome_prices";
        }
  ]

  -- `_get_or_create`: the record of the event, or a new one.
  unfoldable pub price_of : Pipeline N → String → String → LivePriceRecord N
  price_of p cid asset = elim (get p.records cid) [
    | none ↦ new_price cid asset p.threshold
    | some r ↦ r
  ]

  unfoldable pub update_from_ws :
      (String → String) → String → String → String → N → N → ℕ → Pipeline N → Pipeline N
  update_from_ws lower cid asset side bid ask now p = record p {
    records = put p.records cid (ws_record lower side bid ask now (price_of p cid asset));
  }

  unfoldable pub update_from_gamma :
      String → String → OutcomePrices N → N → ℕ → Pipeline N → Pipeline N
  update_from_gamma cid asset raw spread now p = record p {
    records = put p.records cid (gamma_record raw spread now (price_of p cid asset));
  }

module _ {N : Type 0} where
  -- `get_record`: the record and the pipeline in which it was checked.
  unfoldable pub get_record : String → ℕ → Pipeline N → Option (LivePriceRecord N) × Pipeline N
  get_record cid now p = elim (get p.records cid) [
    | none ↦ (none, p)
    | some r ↦ (
      some (check_freshness now r),
      record p { records = put p.records cid (check_freshness now r) },
    )
  ]

  check_all : ℕ → Dict (LivePriceRecord N) → Dict (LivePriceRecord N)
  check_all now [] = []
  check_all now ((k, r) ∷ d) = (k, check_freshness now r) ∷ check_all now d

  -- `get_all_records`
  unfoldable pub get_all_records : ℕ → Pipeline N → List (LivePriceRecord N) × Pipeline N
  unfolding check_all
  get_all_records now p =
      (values (check_all now p.records), record p { records = check_all now p.records })

  -- The first record of the asset, with the records in which it was checked.
  find_asset :
      (String → String)
      → String
      → ℕ
      → Dict (LivePriceRecord N)
      → Option (LivePriceRecord N) × Dict (LivePriceRecord N)
  find_asset upper asset now [] = (none, [])
  find_asset upper asset now ((k, r) ∷ d) =
      let rest = find_asset upper asset now d in
      if str_eq (upper r.asset) (upper asset)
      then (some (check_freshness now r), (k, check_freshness now r) ∷ d)
      else (rest.0, (k, r) ∷ rest.1)

  -- `get_record_by_asset`
  unfoldable pub get_record_by_asset :
      (String → String) → String → ℕ → Pipeline N → Option (LivePriceRecord N) × Pipeline N
  unfolding find_asset
  get_record_by_asset upper asset now p =
      let done = find_asset upper asset now p.records in (done.0, record p { records = done.1 })

  -- `clear_event`
  unfoldable pub clear_event : String → Pipeline N → Pipeline N
  clear_event cid p = record p { records = remove p.records cid }

  unfoldable pub fresh_count : ℕ → Pipeline N → ℕ
  fresh_count now p = count_if (is_fresh now) (values p.records)

  unfoldable pub stale_count : ℕ → Pipeline N → ℕ
  stale_count now p = count_if (is_stale now) (values p.records)

  unfoldable pub invalid_count : Pipeline N → ℕ
  invalid_count p = count_if (λ r. is_status r.status invalid) (values p.records)
