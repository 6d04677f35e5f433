-- ===== src/Orders/Tests.antt =====
-- Orders that are sent, refused, filled and sent back, on sample desks.
use polyfast.Base.{◌≢◌, ◌+◌, ◌≡◌, ◌↔◌, ◌≤◌, String, true, false, none, some, ok, refl, arith}
use polyfast.Base.Int.{ℤ, pos}
use polyfast.Base.Dict.{get, values}
use polyfast.Base.Lists.{count_if, any}
use polyfast.Float.{◌⊖◌}
use polyfast.Float.Fixed.{fixed, fixed_laws}
use polyfast.Balance.{no_function, is_stale, max_zero}
use polyfast.Position.State.{open_confirmed}
use polyfast.Position.Samples.{empty_tracker}
use polyfast.Position.Tracker.{get_position, get_event_fill_count, get_or_zero, open_position_count}
use polyfast.Position.Tracker.Discipline.{IsConsistent, counts_for}
use polyfast.Position.Tracker.Behaviour.{filled_record, rejected_record}
use polyfast.Orders.Intent.{OrderIntent, up}
use polyfast.Orders.Validator.{claim_pending, event_max_reached, validate}
use polyfast.Orders.Validator.Checks.{IsSendable}
use polyfast.Orders.Executor.{
  Config, Desk, unmatched, no_reply, network_error, unfilled_at, open_pending, count_execution,
  paper, live, order_rejected, execute, prepare, check, limits, has_pending_open, filled_at,
}
use polyfast.Orders.Executor.Guards.{prepare-sends, prepare-event_max}
use polyfast.Orders.Executor.Paper.{sent_record, execute-paper}
use polyfast.Orders.Executor.Unfilled.{execute-unfilled}

abbrev paper_config : Config ℤ
paper_config = record {
  mode = paper;
  bot_max = 3;
  min_order_usd = pos 100;
  default_rate = pos 7;
  live_order_enabled = true;
  wrapper_set = true;
}

abbrev live_config : Config ℤ
live_config = record paper_config { mode = live }

-- Twenty dollars, updated at 100, and no position.
abbrev desk : Desk ℤ
desk = record {
  tracker = empty_tracker;
  balance = record {
    available = pos 2000;
    total = pos 2000;
    updated_at = some 100;
    stale_threshold = 90;
    fetch_count = 1;
  };
  execution_count = 0;
  fill_count = 0;
  reject_count = 0;
}

-- Five dollars on "UP" at 0.50.
abbrev buy_five : OrderIntent ℤ
buy_five = record {
  asset = "BTC";
  side = up;
  amount_usd = pos 500;
  condition_id = "c1";
  token_id = "k1";
  dominant_price = pos 50;
  event_max = 1;
}

abbrev buy_at_zero : OrderIntent ℤ
buy_at_zero = record buy_five { dominant_price = pos 0 }

abbrev buy_none : OrderIntent ℤ
buy_none = record buy_five { event_max = 0 }

empty-IsConsistent : IsConsistent empty_tracker
unfolding get_or_zero get count_if values
empty-IsConsistent = record {
  fills_exact = λ cid. refl;
  trades_exact = refl;
  stamps = λ pid r h. ground arith;
}

get-desk : get_position desk.tracker "p1" ≡ none
unfolding get
get-desk = refl

prepare-five : (prepare paper_config "p1" 110 buy_five desk).0 ≡ none
unfolding prepare check is_stale has_pending_open any validate limits get_event_fill_count
    get_or_zero get open_position_count count_if values
prepare-five = refl

prepare-five_live : (prepare live_config "p1" 110 buy_five desk).0 ≡ none
unfolding prepare check is_stale has_pending_open any validate limits get_event_fill_count
    get_or_zero get open_position_count count_if values
prepare-five_live = refl

prepare-at_zero : (prepare paper_config "p1" 110 buy_at_zero desk).0 ≡ none
unfolding prepare check is_stale has_pending_open any validate limits get_event_fill_count
    get_or_zero get open_position_count count_if values
prepare-at_zero = refl

prepare-none :
    (prepare paper_config "p1" 110 buy_none desk).0 ≡ some (ok (order_rejected event_max_reached))
unfolding prepare check is_stale has_pending_open any validate limits get_event_fill_count
    get_or_zero get open_position_count count_if values
prepare-none = refl

prepare-event_max_example :
    count_if
      (counts_for "c1")
      (values (prepare paper_config "p1" 110 buy_five desk).1.tracker.positions)
    ≤ 1
prepare-event_max_example =
    prepare-event_max paper_config "p1" 110 buy_five desk empty-IsConsistent get-desk prepare-five

execute-paper_example :
    let (outcome, d') = execute paper_config "p1" 110 buy_five unmatched no_function desk in
    let r = filled_record (pos 50) (pos 7) 110 (sent_record "p1" 110 buy_five) in
    (outcome ≡ ok (filled_at "p1" (pos 50) (pos 7)))
    × (get_position d'.tracker "p1" ≡ some r)
    × (r.state ≡ open_confirmed)
    × (d'.tracker.session_trade_count ≡ 0 + 1)
    × (d'.balance.available ≡ max_zero (pos 2000 ⊖ pos 500))
    × (d'.fill_count ≡ 0 + 1)
execute-paper_example =
    execute-paper paper_config "p1" 110 buy_five unmatched no_function desk refl prepare-five refl

-- The SDK could not be reached.
execute-unfilled_example :
    let (outcome, d') = execute live_config "p1" 110 buy_five no_reply no_function desk in
    (outcome ≡ ok (unfilled_at "p1" network_error))
    × (get_position d'.tracker "p1" ≡ some (rejected_record 110 (sent_record "p1" 110 buy_five)))
    × (d'.balance ≡ desk.balance)
    × (d'.fill_count ≡ 0)
    × ((cid : String)
        → get_event_fill_count d'.tracker cid ≡ get_event_fill_count empty_tracker cid)
execute-unfilled_example =
    execute-unfilled live_config "p1" 110 buy_five no_reply no_function desk refl refl
      prepare-five_live

prepare-sends_example :
    (((prepare paper_config "p1" 110 buy_five desk).0 ≡ none) ↔ (
      (is_stale 110 desk.balance ≡ false)
      × (has_pending_open buy_five desk ≡ false)
      × IsSendable buy_five (limits paper_config buy_five desk)))
    × ((prepare paper_config "p1" 110 buy_five desk).0 ≡ none
        → (prepare paper_config "p1" 110 buy_five desk).1
          ≡ open_pending "p1" 110 buy_five (count_execution desk))
    × ((prepare paper_config "p1" 110 buy_five desk).0 ≢ some (ok (order_rejected claim_pending)))
prepare-sends_example = prepare-sends paper_config "p1" 110 buy_five desk
