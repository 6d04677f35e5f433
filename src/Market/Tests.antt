-- ===== src/Market/Tests.antt =====
-- Runs of the price pipeline, the bridge and the cleanup, in hundredths.
use polyfast.Base.{ℕ, String, ◌≡◌, ◌≢◌, none, some, List, [], ◌∷◌, refl}
use polyfast.Base.Int.{ℤ, pos, ◌-ℤ◌}
use polyfast.Base.Dict.{get, put}
use polyfast.Float.Fixed.{fixed}
use polyfast.Ptb.Record.{fresh_record}
use polyfast.Market.LivePrice.{
  LivePriceRecord, Pipeline, prices, fresh, best_bid, best_ask, is_valid_price, quoted, ws_record,
  new_price, update_from_ws, price_of, gamma_record, parse_outcome_prices, update_from_gamma,
}
use polyfast.Market.LivePrice.Runs.{PriceCall, from_ws, from_gamma, event_run, run, apply, get-run}
use polyfast.Market.LivePrice.Sound.{IsQuoted, run-IsQuoted}
use polyfast.Market.LivePrice.Sent.{quotes_of, unsent, last_quote, last_quotes}
use polyfast.Market.Bridge.{Bridge, WsMessage, single, on_messages}
use polyfast.Market.Bridge.Silent.{IsUnrouted}
use polyfast.Market.Cleanup.{Watched, cleanup_event, cleanup_event-removes}

abbrev no_prices : Pipeline ℤ
no_prices = record { records = []; threshold = 30 }

-- The API gives 0.40 and 0.60, the WebSocket 0.45 and 0.47 for one event, and then an ask of 0; for
-- another event it gives nonsense.
abbrev calls : List (PriceCall ℤ)
calls =
    from_gamma "c1" "BTC" (prices (some (pos 40) ∷ some (pos 60) ∷ [])) (pos 0) 5
    ∷ from_ws "c2" "ETH" "up" (pos 0) (pos 250) 6
    ∷ from_ws "c1" "BTC" "up" (pos 45) (pos 47) 7
    ∷ from_ws "c1" "BTC" "up" (pos 48) (pos 0) 8
    ∷ []

abbrev seen : LivePriceRecord ℤ
seen = record {
  condition_id = "c1";
  asset = "BTC";
  up_bid = pos 45;
  up_ask = pos 47;
  down_bid = pos 60;
  down_ask = pos 60;
  spread = pos 0;
  status = fresh;
  updated_at = some 7;
  source = "rtds_ws";
  stale_threshold = 30;
}

run-calls : get (run (λ s. s) calls no_prices).records "c1" ≡ some seen
unfolding run apply get put update_from_ws update_from_gamma ws_record is_valid_price quoted
    price_of gamma_record best_bid parse_outcome_prices new_price best_ask ◌-ℤ◌
run-calls = refl

get-run_example :
    get (run (λ s. s) calls no_prices).records "c1" ≡ event_run (λ s. s) "c1" 30 calls none
unfolding get
get-run_example = get-run (λ s. s) calls no_prices "c1"

-- The ask of 0 is refused.
seen-last_quotes : quotes_of seen ≡ last_quotes (λ s. s) "c1" calls unsent
unfolding last_quotes last_quote is_valid_price parse_outcome_prices
seen-last_quotes = refl

run-IsQuoted_example : (quotes_of seen ≡ last_quotes (λ s. s) "c1" calls unsent) × IsQuoted seen
run-IsQuoted_example = run-IsQuoted (λ s. s) calls no_prices "c1" seen refl run-calls

abbrev bridge : Bridge
bridge = record {
  token_routes =
      ("k1", record { token_id = "k1"; condition_id = "c1"; asset = "BTC"; side = "up" }) ∷ [];
  last_message_at = [];
  total_routed = 0;
  total_skipped = 0;
}

abbrev watched : Watched ℤ
watched = record {
  feed = record {
    bridge = bridge;
    pipeline = record { records = ("c1", seen) ∷ []; threshold = 30 };
  };
  prices_to_beat = ("c1", fresh_record "c1" "BTC") ∷ [];
  cleaned_count = 0;
}

abbrev late : List (ℕ × WsMessage ℤ)
late =
    (
      9,
      single (record {
        asset_id = "k1";
        best = some (some (pos 45), some (pos 47));
        bids = [];
        asks = [];
        price = none;
      }),
    )
    ∷ []

cleanup_event-removes_example :
    let w' = cleanup_event "c1" watched in
    (get (on_messages (λ s. s) late w'.feed).pipeline.records "c1" ≡ none)
    × (get w'.prices_to_beat "c1" ≡ none)
    × IsUnrouted "c1" w'.feed.bridge
    × ((j : String)
        → ◌≢◌ {A = String} "c1" j
        → (get w'.feed.pipeline.records j ≡ get watched.feed.pipeline.records j)
          × (get w'.prices_to_beat j ≡ get watched.prices_to_beat j))
cleanup_event-removes_example = cleanup_event-removes (λ s. s) "c1" watched late
