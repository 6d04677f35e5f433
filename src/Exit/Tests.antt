-- ===== src/Exit/Tests.antt =====
-- Exit signals and close attempts on sample positions.
use polyfast.Base.{
  ℕ, leb, if◌then◌else◌, ◌+◌, ◌≡◌, ◌↔◌, true, false, ◌||◌, none, some, ok, refl, [],
}
use polyfast.Base.Int.{ℤ, pos, ◌*ℤ◌, ◌-ℤ◌, quot_ℕ}
use polyfast.Base.Dict.{get}
use polyfast.Float.{◌⊖◌, ◌⊕◌}
use polyfast.Float.Fixed.{fixed, mul_fixed, div_fixed}
use polyfast.Balance.{no_function}
use polyfast.Position.State.{closed, stop_loss}
use polyfast.Position.Record.{PositionRecord, is_open, calculate_unrealized_pnl}
use polyfast.Position.Samples.{open_five, closing_five, tracker_of}
use polyfast.Position.Tracker.{get_position, new_record}
use polyfast.Exit.Evaluator.{ExitConfig, evaluate_force_sell, time_met, pnl_met, pnl_waiting}
use polyfast.Exit.Evaluator.ForceSell.{all_selected_met, evaluate_force_sell_iff}
use polyfast.Exit.Executor.{
  SellConfig, Seller, SellReply, sell_failed, sell_matched, execute_close, takes_back, in_cooldown,
}
use polyfast.Exit.Executor.Retries.{
  Intervals, execute_close_with_retry, Keeps, execute_close_with_retry-Keeps,
}
use polyfast.Exit.Executor.Outcome.{Ends, execute_close-latch, execute_close-paper}
use polyfast.Exit.Executor.Sellable.{is_sellable, sold_record}

-- Take-profit at 20%, stop-loss at 10%, force-sell at 30 seconds and at a loss of 5%.
abbrev exit_config : ExitConfig ℤ
exit_config = record {
  tp_pct = pos 2000;
  sl_enabled = true;
  sl_pct = pos 1000;
  sl_jump_threshold = pos 15;
  tp_reevaluate = true;
  fs_time_enabled = true;
  fs_time_seconds = pos 3000;
  fs_pnl_enabled = true;
  fs_pnl_pct = pos 500;
}

abbrev sell_config : SellConfig ℤ
sell_config = record {
  paper_mode = true;
  evaluator = none;
  default_rate = pos 7;
  cooldown = 5;
  max_close_retries = 10;
}

abbrev seller : Seller ℤ
seller = record {
  tracker = tracker_of closing_five;
  balance = record {
    available = pos 1500;
    total = pos 2000;
    updated_at = some 100;
    stale_threshold = 90;
    fetch_count = 1;
  };
  close_count = 0;
  retry_count = 0;
  last_close_fail_at = [];
}

get-seller : get_position seller.tracker "p1" ≡ some closing_five
unfolding get new_record
get-seller = refl

seller-is_sellable : is_sellable sell_config "p1" 120 (pos 80) closing_five seller ≡ true
unfolding in_cooldown takes_back get new_record
seller-is_sellable = refl

takes_back-seller : takes_back sell_config closing_five (pos 80) ≡ false
unfolding takes_back new_record
takes_back-seller = refl

execute_close-latch_example :
    Ends "p1" closing_five
      (execute_close sell_config "p1" 120 (pos 80) true sell_failed no_function seller)
execute_close-latch_example =
    execute_close-latch sell_config "p1" 120 (pos 80) true sell_failed no_function seller
      closing_five get-seller takes_back-seller

execute_close-paper_example :
    let (outcome, s') =
      execute_close sell_config "p1" 120 (pos 80) true sell_failed no_function seller in
    let r' = sold_record (pos 80) (pos 7) 120 closing_five in
    (outcome ≡ ok true)
    × (get_position s'.tracker "p1" ≡ some r')
    × (r'.state ≡ closed)
    × (r'.net_realized_pnl ≡ (r'.net_exit_usdc ⊖ closing_five.requested_amount_usd))
    × (r'.close_reason ≡ closing_five.close_reason)
    × (r'.close_trigger_set ≡ closing_five.close_trigger_set)
    × (s'.balance.available ≡ pos 1500 ⊕ r'.net_exit_usdc)
    × (s'.close_count ≡ 0 + 1)
execute_close-paper_example =
    execute_close-paper sell_config "p1" 120 (pos 80) true sell_failed no_function seller
      closing_five refl get-seller seller-is_sellable

evaluate_force_sell_iff_example :
    ((evaluate_force_sell exit_config open_five (pos 40) (pos 2000) true).should_exit ≡ true) ↔ (
      (is_open open_five ≡ true)
      × ((true || true) ≡ true)
      × (all_selected_met exit_config open_five (pos 40) (pos 2000) true ≡ true))
evaluate_force_sell_iff_example =
    evaluate_force_sell_iff exit_config open_five (pos 40) (pos 2000) true

both_met : (evaluate_force_sell exit_config open_five (pos 40) (pos 2000) true).should_exit ≡ true
unfolding evaluate_force_sell time_met pnl_met calculate_unrealized_pnl new_record mul_fixed
    div_fixed pnl_waiting quot_ℕ ◌*ℤ◌ ◌-ℤ◌
both_met = refl

time_met-example : time_met exit_config (pos 2000) ≡ true
unfolding time_met
time_met-example = refl

-- A stop-loss that the exchange does not fill twice, and fills then.
abbrev stopping_five : PositionRecord ℤ
stopping_five = record closing_five { close_reason = some stop_loss }

abbrev retry_seller : Seller ℤ
retry_seller = record seller { tracker = tracker_of stopping_five }

abbrev intervals : Intervals
intervals = record {
  tp_ms = 400;
  sl_ms = 500;
  fs_ms = 500;
  manual_close_ms = 400;
  expiry_ms = 200;
  shutdown_ms = 100;
}

abbrev live_config : SellConfig ℤ
live_config = record sell_config { paper_mode = false }

abbrev late_fill : ℕ → SellReply ℤ
late_fill attempt = if leb 2 attempt then sell_matched none (pos 990) (pos 495) else sell_failed

stopping_five-found :
    get_position retry_seller.tracker stopping_five.position_id ≡ some stopping_five
unfolding get new_record
stopping_five-found = refl

execute_close_with_retry-Keeps_example : Keeps "p1" stopping_five (
    execute_close_with_retry live_config intervals stopping_five
      (pos 50)
      (some 5)
      true
      late_fill
      (λ n. no_function)
      600
      retry_seller)
unfolding new_record
execute_close_with_retry-Keeps_example =
    execute_close_with_retry-Keeps live_config intervals stopping_five (pos 50) (some 5) true
      late_fill (λ n. no_function) 600 retry_seller stopping_five-found refl
