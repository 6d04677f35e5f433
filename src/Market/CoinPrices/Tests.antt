-- ===== src/Market/CoinPrices/Tests.antt =====
-- Prices that arrive, in hundredths.
use polyfast.Base.{◌≡◌, ◌⊎◌, true, none, some, List, [], ◌∷◌, refl}
use polyfast.Base.Int.{ℤ, pos}
use polyfast.Base.Dict.{get}
use polyfast.Float.Fixed.{fixed}
use polyfast.Market.CoinPrices.{
  CoinPriceRecord, CoinPrices, PriceBounds, Payload, get_usd_price, is_valid_usd,
}
use polyfast.Market.CoinPrices.Priced.{IsPriced}
use polyfast.Market.CoinPrices.Stream.{nothing, payload}
use polyfast.Market.CoinPrices.Calls.{
  CoinCall, sets_coins, gets, receives, polls, streams, coin_run, coin_run-IsPriced,
}

abbrev bounds : PriceBounds ℤ
bounds = record { price_min = pos 1; price_max = pos 100000000 }

abbrev no_coins : CoinPrices ℤ
no_coins = record { records = []; coins = []; total_updates = 0; threshold = 15 }

abbrev priced_at : ℤ → Payload ℤ
priced_at x = record { symbol = "btcusdt"; last_value = some (some x); value = none }

-- A price, one that is out of bounds, and a read after the price is stale.
abbrev calls : List (CoinCall ℤ)
calls =
    sets_coins ("BTC" ∷ "ETH" ∷ [])
    ∷ receives 5 (priced_at (pos 6730000))
    ∷ receives 6 (priced_at (pos 0))
    ∷ polls true 9 ((7, 8, payload (priced_at (pos 6740000))) ∷ [])
    ∷ gets "BTC" 30
    ∷ streams 2 ((31, nothing) ∷ (32, payload (priced_at (pos 6750000))) ∷ [])
    ∷ []

coin_run-IsPriced_example :
    let s' = coin_run (λ s. s) bounds calls no_coins in
    ((r : CoinPriceRecord ℤ) → get s'.records "BTC" ≡ some r → IsPriced bounds r)
    × (((get_usd_price "BTC" 31 s').0 ≡ pos 0)
        ⊎ (is_valid_usd bounds (get_usd_price "BTC" 31 s').0 ≡ true))
coin_run-IsPriced_example = coin_run-IsPriced (λ s. s) bounds calls no_coins "BTC" 31 refl
