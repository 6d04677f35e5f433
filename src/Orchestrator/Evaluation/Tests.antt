-- ===== src/Orchestrator/Evaluation/Tests.antt =====
-- An evaluation of BTC that sends an order, and a round with the dispatch switched off. Names are
-- in capitals already.
use polyfast.Base.{ℕ, ◌≡◌, ◌⊎◌, ◌||◌, ◌&&◌, ◌*◌, true, false, some, [], ◌∷◌, refl}
use polyfast.Base.Int.{ℤ, pos}
use polyfast.Float.Fixed.{fixed}
use polyfast.Balance.{no_function}
use polyfast.Strategy.Context.{dominant_only, evaluated_side}
use polyfast.Strategy.Rules.{default_rules}
use polyfast.Settings.Coin.{CoinSettings}
use polyfast.Registry.Status.{active}
use polyfast.Position.Samples.{empty_tracker}
use polyfast.Ptb.Record.{fresh_record, locked_with}
use polyfast.Orders.Intent.{OrderIntent}
use polyfast.Orders.Executor.{paper, unmatched, execute}
use polyfast.Market.LivePrice.{fresh}
use polyfast.Market.CoinPrices
use polyfast.Orchestrator.Evaluation.Lookup.{Moment}
use polyfast.Orchestrator.Evaluation.{
  Trader, EvaluationConfig, OrderReply, is_entry, evaluate_single, evaluate_coin,
  evaluate_all_eligible,
}
use polyfast.Orchestrator.Evaluation.Judged.{judged_price}
use polyfast.Orchestrator.Evaluation.Dispatch.{IsSound, Withheld, evaluate_coin-IsSound}
use polyfast.Orchestrator.Evaluation.Switch.{evaluate_all_eligible-off}

abbrev btc : CoinSettings ℤ
btc = record {
  coin = "BTC";
  coin_enabled = true;
  side_mode = dominant_only;
  delta_threshold = pos 5000;
  price_min = pos 5100;
  price_max = pos 8500;
  spread_max = pos 300;
  time_min = pos 3000;
  time_max = pos 27000;
  event_max = 1;
  order_amount = pos 500;
  reactivate_on_return = true;
}

-- BTC is asked at 0.60, two minutes before the end of the slot.
abbrev trader : Trader ℤ
trader = record {
  settings = ("BTC", btc) ∷ [];
  pipeline = record {
    records =
        (
          "c1",
          record {
            condition_id = "c1";
            asset = "BTC";
            up_bid = pos 59;
            up_ask = pos 60;
            down_bid = pos 40;
            down_ask = pos 41;
            spread = pos 1;
            status = fresh;
            updated_at = some 175;
            source = "rtds_ws";
            stale_threshold = 30;
          },
        )
        ∷ [];
    threshold = 30;
  };
  coin_prices = record {
    records =
        (
          "BTC",
          record {
            coin = "BTC";
            usd_price = pos 6730000;
            status = CoinPrices.fresh;
            updated_at = some 178;
            stale_threshold = 15;
          },
        )
        ∷ [];
    coins = "BTC" ∷ [];
    total_updates = 4;
    threshold = 15;
  };
  ptb = ("c1", locked_with (pos 6720000) "ssr_open_price" 5 (fresh_record "c1" "BTC")) ∷ [];
  registry =
      (
        "c1",
        record {
          event_id = "e1";
          condition_id = "c1";
          asset = "BTC";
          question = some "Bitcoin Up or Down?";
          slug = "btc-updown-5m-1770000000";
          status = active;
          first_seen_at = 3;
          last_seen_at = 170;
          status_changed_at = 3;
          end_date = 300;
          has_open_position = false;
        },
      )
      ∷ [];
  token_routes =
      ("k1", record { token_id = "k1"; condition_id = "c1"; asset = "BTC"; side = "UP" })
      ∷ ("k2", record { token_id = "k2"; condition_id = "c1"; asset = "BTC"; side = "DOWN" })
      ∷ [];
  desk = record {
    tracker = empty_tracker;
    balance = record {
      available = pos 2000;
      total = pos 2000;
      updated_at = some 100;
      stale_threshold = 90;
      fetch_count = 1;
    };
    execution_count = 0;
    fill_count = 0;
    reject_count = 0;
  };
  order_dispatch_enabled = false;
  eval_count = 0;
  entry_count = 0;
  last_results = [];
}

abbrev in_paper : EvaluationConfig ℤ
in_paper = record {
  rules = default_rules;
  bot_max_positions = 3;
  paper_mode = true;
  orders = record {
    mode = paper;
    bot_max = 3;
    min_order_usd = pos 100;
    default_rate = pos 7;
    live_order_enabled = false;
    wrapper_set = false;
  };
}

abbrev not_in_paper : EvaluationConfig ℤ
not_in_paper = record in_paper { paper_mode = false }

abbrev moment : Moment ℤ
moment = record { now = 180; unix = 1770000180; unix_f = pos 177000018000 }

abbrev hundredths : ℕ → ℤ
hundredths n = pos (n * 100)

abbrev answer : OrderReply ℤ
answer = record { pid = "p1"; reply = unmatched; fetched = no_function }

evaluate_coin-IsSound_example :
    let (result, x, t') = evaluate_single (λ s. s) hundredths in_paper moment btc trader in
    let d = (evaluate_coin (λ s. s) hundredths in_paper moment answer btc trader).desk in
    let goes = is_entry result.decision && (trader.order_dispatch_enabled || in_paper.paper_mode) in
    ((goes ≡ false) × (d ≡ trader.desk))
    ⊎ ((goes ≡ true)
        × ((Withheld
                (λ s. s)
                hundredths
                in_paper
                moment
                btc
                trader.registry
                trader.token_routes
                t'.pipeline
                (evaluated_side x)
                (judged_price x)
              × (d ≡ trader.desk))
            ⊎ ((i : OrderIntent ℤ) × IsSound
                  (λ s. s)
                  hundredths
                  in_paper
                  moment
                  btc
                  trader.registry
                  trader.token_routes
                  (evaluated_side x)
                  (judged_price x)
                  i
                × (d ≡ (execute in_paper.orders "p1" 180 i unmatched no_function trader.desk).1))))
evaluate_coin-IsSound_example =
    evaluate_coin-IsSound (λ s. s) hundredths in_paper moment answer btc trader

evaluate_all_eligible-off_example :
    (evaluate_all_eligible (λ s. s) hundredths not_in_paper moment (λ c. answer) trader).desk
    ≡ trader.desk
evaluate_all_eligible-off_example =
    evaluate_all_eligible-off (λ s. s) hundredths not_in_paper moment (λ c. answer) trader refl refl
