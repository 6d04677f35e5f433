-- ===== src/Market/CoinPrices/Stream.antt =====
-- The connections of `CoinPriceClient` (backend/market_data/coin_price_client.py): `_persistent_loop` with
-- a turn of `run_forever`, and `poll_once`.
use polyfast.Base.{
  ℕ, ◌+◌, ◌*◌, ltb, not, ◌&&◌, ◌||◌, String, Bool, true, false, Option, none, some, List, [], ◌∷◌,
  if◌then◌else◌, leb,
}
use polyfast.Base.Dict.{Dict, get, put}
use polyfast.Float.{Float}
use polyfast.Market.CoinPrices.{
  CoinPrices, PriceBounds, Payload, coin_symbols, on_payload, symbol_to_coin, extract_price,
  is_valid_usd, update_record,
}
use polyfast.Base.Lists.{length}
use polyfast.Market.Rtds.{is_empty}

-- What `recv` gives in a turn of `_persistent_loop`: nothing in time, or no payload to use, or an
-- exception that ends the connection, or a payload.
pub data Received (N : Type 0) : Type 0 where
  nothing : Received N
  broken : Received N
  payload : Payload N → Received N

-- A connection of `_persistent_loop`. `asks` lists the symbols asked for at each resubscription, the
-- latest first.
pub record Streaming (N : Type 0) : Type 0 where
  pub prices : CoinPrices N
  pub last_resub : Option ℕ  -- none is the time 0.0, before every interval
  pub resub_count : ℕ
  pub asks : List (List String)

-- The symbols of the coins that have one.
unfoldable pub symbols_of : List String → List String
symbols_of [] = []
symbols_of (c ∷ cs) =
    let rest = symbols_of cs in elim (get coin_symbols c) [ none ↦ rest | some s ↦ s ∷ rest ]

-- `now - last_resub >= resub_interval`
abbrev pub is_due : ℕ → ℕ → Option ℕ → Bool
is_due interval now none = true
is_due interval now (some last) = leb (last + interval) now

module _ {N : Type 0} ⦃f : Float N⦄ (b : PriceBounds N) where
  unfoldable pub resubscribe_due : ℕ → List String → ℕ → Streaming N → Streaming N
  resubscribe_due interval symbols now s =
      if is_due interval now s.last_resub
      then record s {
        last_resub = some now;
        resub_count = s.resub_count + 1;
        asks = symbols ∷ s.asks;
      }
      else s

  -- The turns of a connection, with their times; false where it ends with an exception.
  unfoldable pub stream_turns :
      ℕ → List String → List (ℕ × Received N) → Streaming N → Bool × Streaming N
  stream_turns interval symbols [] s = (true, s)
  stream_turns interval symbols ((now, nothing) ∷ ts) s =
      stream_turns interval symbols ts (resubscribe_due interval symbols now s)
  stream_turns interval symbols ((now, broken) ∷ ts) s =
      (false, resubscribe_due interval symbols now s)
  stream_turns interval symbols ((now, payload p) ∷ ts) s =
      let s' = resubscribe_due interval symbols now s in
      stream_turns interval symbols ts (record s' { prices = on_payload b now p s'.prices })

  -- `_persistent_loop`, where the connection opens; the symbols are those of the coins at its start.
  unfoldable pub persistent_loop : ℕ → List (ℕ × Received N) → Streaming N → Bool × Streaming N
  persistent_loop interval turns s = elim s.prices.coins [
    | [] ↦ (true, s)
    | c ∷ cs ↦ stream_turns interval (symbols_of (c ∷ cs)) turns (record s { last_resub = none })
  ]

-- `run_forever` between its turns: the stream, the failures in a row, the connections lost, and the
-- waits in seconds, the latest first.
pub record Running (N : Type 0) : Type 0 where
  pub stream : Streaming N
  pub fail_count : ℕ
  pub reconnect_count : ℕ
  pub waits : List ℕ

-- `min(fail_count * 2, 10)`
unfoldable pub reconnect_wait : ℕ → ℕ
reconnect_wait fail_count = if ltb (fail_count * 2) 10 then fail_count * 2 else 10

module _ {N : Type 0} ⦃f : Float N⦄ (b : PriceBounds N) where
  -- A call of `_persistent_loop`, none where the connection does not open.
  unfoldable pub try_stream : ℕ → Option (List (ℕ × Received N)) → Streaming N → Bool × Streaming N
  try_stream interval none s = (is_empty s.prices.coins, s)
  try_stream interval (some turns) s = persistent_loop b interval turns s

  -- A turn of `run_forever`.
  unfoldable pub forever_turn : ℕ → Option (List (ℕ × Received N)) → Running N → Running N
  forever_turn interval c r =
      let (ended, s) = try_stream interval c r.stream in
      if ended then record r { stream = s; fail_count = 0 } else record r {
        stream = s;
        fail_count = r.fail_count + 1;
        reconnect_count = r.reconnect_count + 1;
        waits = reconnect_wait (r.fail_count + 1) ∷ r.waits;
      }

  -- What `poll_once` does with a payload: its results with the client.
  unfoldable pub on_polled : ℕ → Payload N → Dict N × CoinPrices N → Dict N × CoinPrices N
  on_polled now p (results, s) = elim (get symbol_to_coin p.symbol) [
    | none ↦ (results, s)
    | some coin ↦ (elim (extract_price p) [
      | none ↦ (results, s)
      | some price ↦
          if is_valid_usd b price
          then (put results coin price, update_record coin price now s)
          else (results, s)
    ])
  ]

  -- The loop of `poll_once`: for each turn the time at its start, the time of what came, and that. It
  -- ends where every coin has a price or the deadline has passed.
  unfoldable pub poll_turns :
      ℕ → ℕ → List (ℕ × ℕ × Received N) → Dict N × CoinPrices N → Dict N × CoinPrices N
  poll_turns deadline wanted [] c = c
  poll_turns deadline wanted ((at, now, nothing) ∷ ts) c =
      let rest = poll_turns deadline wanted ts c in
      if ltb (length (c.0)) wanted && ltb at deadline then rest else c
  poll_turns deadline wanted ((at, now, broken) ∷ ts) c = c
  poll_turns deadline wanted ((at, now, payload p) ∷ ts) c =
      let rest = poll_turns deadline wanted ts (on_polled now p c) in
      if ltb (length (c.0)) wanted && ltb at deadline then rest else c

  -- `poll_once`; `opens` says whether the connection opens and the subscriptions go out.
  unfoldable pub poll_once :
      Bool → ℕ → List (ℕ × ℕ × Received N) → CoinPrices N → Dict N × CoinPrices N
  poll_once opens deadline turns s =
      if is_empty s.coins || not opens
      then ([], s)
      else poll_turns deadline (length s.coins) turns ([], s)
