-- ===== src/Market/CoinPrices/Calls.antt =====
-- A run of calls of the client gives out only prices that it accepted.
use polyfast.Base.{
  ℕ, String, true, ◌≡◌, ◌⊎◌, inl, inr, none, some, List, [], ◌∷◌, map, arith, not, ◌||◌, Bool,
  if-cases,
}
use polyfast.Base.Dict.{Dict, get}
use polyfast.Float.{Float}
use polyfast.Market.CoinPrices.{
  CoinPriceRecord, CoinPrices, Payload, PriceBounds, get_price, get_all_prices, set_coins,
  is_valid_usd, on_payload, get_usd_price,
}
use polyfast.Base.Lists.{length, List-cases}
use polyfast.Market.Rtds.{is_empty}
use polyfast.Market.CoinPrices.Stream.{Received, Streaming, symbols_of, persistent_loop, poll_once}
use polyfast.Market.CoinPrices.Priced.{
  IsPriced, AllPriced, create_records-AllPriced, check_coins-AllPriced, get_price-AllPriced,
  on_payload-AllPriced, get_usd_price_cases, poll_turns-AllPriced, stream_turns-AllPriced,
}

-- What the rest of the program does to the client.
pub data CoinCall (N : Type 0) : Type 0 where
  sets_coins : List String → CoinCall N
  gets : String → ℕ → CoinCall N
  gets_all : ℕ → CoinCall N
  receives : ℕ → Payload N → CoinCall N
  polls : Bool → ℕ → List (ℕ × ℕ × Received N) → CoinCall N
  streams : ℕ → List (ℕ × Received N) → CoinCall N

-- A connection that begins.
abbrev pub begun : {N : Type 0} → CoinPrices N → Streaming N
begun s = record { prices = s; last_resub = none; resub_count = 0; asks = [] }

module _ {N : Type 0} ⦃f : Float N⦄ (upper : String → String) (b : PriceBounds N) where
  abbrev pub apply_coin_call : CoinCall N → CoinPrices N → CoinPrices N
  apply_coin_call (sets_coins cs) s = set_coins upper cs s
  apply_coin_call (gets coin now) s = (get_price coin now s).1
  apply_coin_call (gets_all now) s = get_all_prices now s
  apply_coin_call (receives now p) s = on_payload b now p s
  apply_coin_call (polls opens deadline ts) s = (poll_once b opens deadline ts s).1
  apply_coin_call (streams interval ts) s = (persistent_loop b interval ts (begun s)).1.prices

  unfoldable pub coin_run : List (CoinCall N) → CoinPrices N → CoinPrices N
  coin_run [] s = s
  coin_run (c ∷ cs) s = coin_run cs (apply_coin_call c s)

module _ {N : Type 0} ⦃f : Float N⦄ (upper : String → String) (b : PriceBounds N) where
  persistent_loop-AllPriced :
      (interval : ℕ) (ts : List (ℕ × Received N)) (s : CoinPrices N)
      → AllPriced b s.records
      → AllPriced b (persistent_loop b interval ts (begun s)).1.prices.records
  unfolding persistent_loop
  persistent_loop-AllPriced interval ts s all = elim (List-cases s.coins) [
    | inl no_coins ↦ rw (no_coins, persistent_loop) all
    | inr (c, cs, some_coins) ↦
        rw (some_coins, persistent_loop)
          (stream_turns-AllPriced b interval (symbols_of (c ∷ cs)) ts (begun s) all)
  ]

  run-AllPriced :
      (calls : List (CoinCall N)) (s : CoinPrices N)
      → AllPriced b s.records
      → AllPriced b (coin_run upper b calls s).records
  unfolding coin_run set_coins poll_once get_all_prices
  run-AllPriced [] s all = all
  run-AllPriced (sets_coins cs ∷ calls) s all =
      run-AllPriced calls (set_coins upper cs s)
        (create_records-AllPriced b (map upper cs) s.threshold s.records all)
  run-AllPriced (gets coin now ∷ calls) s all =
      run-AllPriced calls (get_price coin now s).1 (get_price-AllPriced b coin now s all)
  run-AllPriced (gets_all now ∷ calls) s all =
      run-AllPriced calls (get_all_prices now s) (check_coins-AllPriced b now s.records all)
  run-AllPriced (receives now p ∷ calls) s all =
      run-AllPriced calls (on_payload b now p s) (on_payload-AllPriced b now p s all)
  run-AllPriced (polls opens deadline ts ∷ calls) s all =
      run-AllPriced calls (poll_once b opens deadline ts s).1 (
        if-cases (λ (c : Dict N × CoinPrices N). AllPriced b (c.1).records)
          (is_empty s.coins || not opens) _ _ (λ without. all)
          (λ with_coins. poll_turns-AllPriced b deadline (length s.coins) ts ([], s) all))
  run-AllPriced (streams interval ts ∷ calls) s all =
      run-AllPriced calls (persistent_loop b interval ts (begun s)).1.prices
        (persistent_loop-AllPriced interval ts s all)

  -- Whatever arrives, after any calls on a client without records each record waits, with the
  -- price 0 and no time, or it is fresh or stale, with the time of its update and a price within the
  -- bounds; a price that is given out is 0 or lies within the bounds.
  pub coin_run-IsPriced :
      (calls : List (CoinCall N)) (s : CoinPrices N) (coin : String) (now : ℕ)
      → s.records ≡ []
      → let s' = coin_run upper b calls s in
        ((r : CoinPriceRecord N) → get s'.records coin ≡ some r → IsPriced b r)
        × (((get_usd_price coin now s').0 ≡ f.zero_f)
            ⊎ (is_valid_usd b (get_usd_price coin now s').0 ≡ true))
  unfolding get
  coin_run-IsPriced calls s coin now h =
      let all = run-AllPriced calls s (λ c r e. absurd (ground arith)) in
      (all coin, get_usd_price_cases b coin now (coin_run upper b calls s) all)
