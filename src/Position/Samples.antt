-- ===== src/Position/Samples.antt =====
-- Sample positions and trackers, in hundredths, for the tests.
use polyfast.Base.{true, some, [], ◌∷◌}
use polyfast.Base.Int.{ℤ, pos}
use polyfast.Float.Fixed.{fixed}
use polyfast.Position.State.{open_confirmed, closing_requested, take_profit}
use polyfast.Position.Record.{PositionRecord}
use polyfast.Position.Tracker.{Tracker, new_record}

abbrev pub empty_tracker : Tracker ℤ
empty_tracker = record {
  positions = [];
  fee_rate = pos 7;
  store_set = true;
  event_fills = [];
  session_trade_count = 0;
  scheduled = [];
}

-- A pending order of 5.00.
abbrev pub pending_five : PositionRecord ℤ
pending_five = new_record "p1" 10 "BTC" "UP" "c1" "k1" (pos 500)

-- It filled at 0.50.
abbrev pub open_five : PositionRecord ℤ
open_five = record pending_five {
  state = open_confirmed;
  fill_price = pos 50;
  gross_fill_shares = pos 1000;
  net_position_shares = pos 990;
  fee_rate = pos 7;
  opened_at = some 11;
}

-- Its take-profit was triggered.
abbrev pub closing_five : PositionRecord ℤ
closing_five = record open_five {
  state = closing_requested;
  close_reason = some take_profit;
  close_triggered_at = some 20;
}

abbrev pub tracker_of : PositionRecord ℤ → Tracker ℤ
tracker_of r = record empty_tracker {
  positions = ("p1", r) ∷ [];
  event_fills = ("c1", 1) ∷ [];
  session_trade_count = 1;
}
