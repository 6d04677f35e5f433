-- ===== src/Market/CoinPrices.antt =====
-- `CoinPriceRecord` and `CoinPriceClient` (backend/market_data/coin_price_client.py): the USD prices of
-- the coins. Time is counted in a unit of the clock. Health incidents, the telemetry of the
-- connection and the tasks' handles are left out.
pub mod Priced
pub mod Stream
pub mod Calls
mod Tests
use polyfast.Base.{
  ℕ, ◌+◌, String, Bool, true, false, not, ◌&&◌, ◌||◌, Option, none, some, List, [], ◌∷◌, map,
  if◌then◌else◌, ltb, leb, is_some,
}
use polyfast.Base.Dict.{Dict, get, put, values}
use polyfast.Base.Lists.{count_if}
use polyfast.Float.{Float, ◌≤?◌}

-- `CoinPriceStatus`
pub data CoinPriceStatus : Type 0 where
  fresh stale waiting invalid : CoinPriceStatus

abbrev pub is_fresh_status : CoinPriceStatus → Bool
is_fresh_status fresh = true
is_fresh_status _ = false

-- `status in (INVALID, WAITING)`
abbrev pub is_unset : CoinPriceStatus → Bool
is_unset waiting = true
is_unset invalid = true
is_unset _ = false

pub record CoinPriceRecord (N : Type 0) : Type 0 where
  pub coin : String
  pub usd_price : N
  pub status : CoinPriceStatus
  pub updated_at : Option ℕ
  pub stale_threshold : ℕ

pub record CoinPrices (N : Type 0) : Type 0 where
  pub records : Dict (CoinPriceRecord N)
  pub coins : List String
  pub total_updates : ℕ
  pub threshold : ℕ

-- `COIN_SYMBOLS`
abbrev pub coin_symbols : Dict String
coin_symbols =
    ("BTC", "btcusdt")
    ∷ ("ETH", "ethusdt")
    ∷ ("SOL", "solusdt")
    ∷ ("DOGE", "dogeusdt")
    ∷ ("XRP", "xrpusdt")
    ∷ ("BNB", "bnbusdt")
    ∷ []

abbrev pub turn_round : Dict String → Dict String
turn_round [] = []
turn_round ((k, v) ∷ d) = (v, k) ∷ turn_round d

-- `_SYMBOL_TO_COIN`
abbrev pub symbol_to_coin : Dict String
symbol_to_coin = turn_round coin_symbols

-- What `_extract_price` reads of a payload: the value of the last item of its data, and its own
-- value, where they are there and are not falsy; `float` of it is none where that raises.
pub record Payload (N : Type 0) : Type 0 where
  pub symbol : String
  pub last_value : Option (Option N)
  pub value : Option (Option N)

module _ {N : Type 0} where
  -- `is_stale`
  unfoldable pub is_stale : ℕ → CoinPriceRecord N → Bool
  is_stale now r = elim r.updated_at [ none ↦ false | some at ↦ ltb (at + r.stale_threshold) now ]

  -- `is_fresh`
  unfoldable pub is_fresh : ℕ → CoinPriceRecord N → Bool
  is_fresh now r =
      if is_unset r.status
      then false
      else (elim r.updated_at [ none ↦ false | some at ↦ leb now (at + r.stale_threshold) ])

  unfoldable pub check_freshness : ℕ → CoinPriceRecord N → CoinPriceRecord N
  unfolding is_stale
  check_freshness now r =
      if is_unset r.status then r else if is_stale now r then record r { status = stale } else r

  -- `get_price`: the record and the client in which it was checked.
  unfoldable pub get_price : String → ℕ → CoinPrices N → Option (CoinPriceRecord N) × CoinPrices N
  get_price coin now s = elim (get s.records coin) [
    | none ↦ (none, s)
    | some r ↦ (
      some (check_freshness now r),
      record s { records = put s.records coin (check_freshness now r) },
    )
  ]

  unfoldable pub check_coins : ℕ → Dict (CoinPriceRecord N) → Dict (CoinPriceRecord N)
  check_coins now [] = []
  check_coins now ((c, r) ∷ d) = (c, check_freshness now r) ∷ check_coins now d

  -- `get_all_prices`; what it gives is a copy of the records that it leaves.
  unfoldable pub get_all_prices : ℕ → CoinPrices N → CoinPrices N
  get_all_prices now s = record s { records = check_coins now s.records }

  -- `_extract_price`
  unfoldable pub extract_price : Payload N → Option N
  extract_price p = elim p.last_value [
    | some x ↦ x
    | none ↦ (elim p.value [ some x ↦ x | none ↦ none ])
  ]

  unfoldable pub fresh_count : ℕ → CoinPrices N → ℕ
  fresh_count now s = count_if (is_fresh now) (values s.records)

  unfoldable pub stale_count : ℕ → CoinPrices N → ℕ
  stale_count now s = count_if (is_stale now) (values s.records)

-- The bounds of a price, PRICE_MIN and PRICE_MAX.
pub record PriceBounds (N : Type 0) : Type 0 where
  pub price_min : N
  pub price_max : N

module _ {N : Type 0} ⦃f : Float N⦄ where
  -- `get_usd_price`
  unfoldable pub get_usd_price : String → ℕ → CoinPrices N → N × CoinPrices N
  get_usd_price coin now s =
      let (found, s') = get_price coin now s in
      (
        elim found [
          | none ↦ f.zero_f
          | some r ↦ if is_fresh_status r.status then r.usd_price else f.zero_f
        ],
        s',
      )

  -- `CoinPriceRecord(coin=…)`
  unfoldable pub new_coin_price : String → ℕ → CoinPriceRecord N
  new_coin_price coin threshold = record {
    coin = coin;
    usd_price = f.zero_f;
    status = waiting;
    updated_at = none;
    stale_threshold = threshold;
  }

  -- The loop of `set_coins`, which makes the records that are not there.
  unfoldable pub create_records :
      List String → ℕ → Dict (CoinPriceRecord N) → Dict (CoinPriceRecord N)
  create_records [] threshold d = d
  create_records (c ∷ cs) threshold d =
      create_records cs threshold
        (if is_some (get d c) then d else put d c (new_coin_price c threshold))

  -- `set_coins`
  unfoldable pub set_coins : (String → String) → List String → CoinPrices N → CoinPrices N
  set_coins upper cs s = record s {
    coins = map upper cs;
    records = create_records (map upper cs) s.threshold s.records;
  }

  -- `_is_valid_price`
  unfoldable pub is_valid_usd : PriceBounds N → N → Bool
  is_valid_usd b price = (b.price_min ≤? price) && (price ≤? b.price_max)

  unfoldable pub coin_price_of : CoinPrices N → String → CoinPriceRecord N
  coin_price_of s coin = elim (get s.records coin) [
    | none ↦ new_coin_price coin s.threshold
    | some r ↦ r
  ]

  -- `_update_record`
  unfoldable pub update_record : String → N → ℕ → CoinPrices N → CoinPrices N
  update_record coin price now s = record s {
    records = put s.records coin (record (coin_price_of s coin) {
      usd_price = price;
      status = fresh;
      updated_at = some now;
    });
    total_updates = s.total_updates + 1;
  }

  -- What `_persistent_loop` does with a payload.
  unfoldable pub on_payload : PriceBounds N → ℕ → Payload N → CoinPrices N → CoinPrices N
  on_payload b now p s = elim (get symbol_to_coin p.symbol) [
    | none ↦ s
    | some coin ↦ (elim (extract_price p) [
      | none ↦ s
      | some price ↦ if is_valid_usd b price then update_record coin price now s else s
    ])
  ]
