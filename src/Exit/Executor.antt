-- ===== src/Exit/Executor.antt =====
-- `ExitExecutor` (backend/execution/exit_executor.py). `execute_close` works on the record that the
-- tracker holds under `pid`. Up to the sell order it runs without a wait, which is `begin_close`;
-- the reply of the exchange's SDK is an argument, and `finish_close` is what follows it. In paper
-- mode there is no wait. Times of the cooldown are counted in a unit of the clock.
pub mod Sellable
pub mod Outcome
pub mod Retries
use polyfast.Base.{
  ℕ, zero, suc, ◌+◌, String, Bool, true, false, not, ◌&&◌, Option, none, some, List, [],
  if◌then◌else◌, ltb, leb, Result, ok, err, Error,
}
use polyfast.Base.Dict.{Dict, get, put, remove}
use polyfast.Float.{Float, ◌⊘◌, ◌<?◌, ◌≤?◌}
use polyfast.Balance.{Balance, FetchReply, fetch, add_amount}
use polyfast.Position.State.{
  PositionState, open_confirmed, closing_requested, close_pending, close_failed, is_state,
  CloseReason, take_profit, stop_loss, force_sell, manual_close, expiry, system_shutdown,
}
use polyfast.Position.Record.{PositionRecord, transition_to, is_open}
use polyfast.Position.Tracker.{Tracker, Call, get_position, store_record, confirm_close}
use polyfast.Exit.Evaluator.{ExitConfig, is_take_profit, should_cancel_close}

pub record SellConfig (N : Type 0) : Type 0 where
  pub paper_mode : Bool
  pub evaluator : Option (ExitConfig N)
  pub default_rate : N
  pub cooldown : ℕ
  pub max_close_retries : ℕ

pub record Seller (N : Type 0) : Type 0 where
  pub tracker : Tracker N
  pub balance : Balance N
  pub close_count : ℕ
  pub retry_count : ℕ
  pub last_close_fail_at : Dict ℕ

-- The reply to the sell order, as `_execute_live_sell` reads it.
pub data SellReply (N : Type 0) : Type 0 where
  sell_matched : Option N → N → N → SellReply N  -- rate, making_amount, taking_amount
  sell_failed : SellReply N  -- no reply, or any other status

-- `(success, fill_price, fee_rate)`
pub data Sale (N : Type 0) : Type 0 where
  sold : N → N → Sale N
  unsold : Sale N

-- How `begin_close` ends: it is over, it raises, or the sell order of the record is to be sent.
pub data Begun (N : Type 0) : Type 0 where
  stopped : Begun N
  raising : Error → Begun N
  sending : PositionRecord N → Begun N

module _ {N : Type 0} where
  unfoldable pub in_cooldown : SellConfig N → String → ℕ → PositionRecord N → Seller N → Bool
  in_cooldown c pid now r s =
      is_state r.state close_failed && (elim (get s.last_close_fail_at pid) [
        | none ↦ false
        | some failed_at ↦ ltb now (failed_at + c.cooldown)
      ])

  abbrev pub with_record : String → PositionRecord N → Seller N → Seller N
  with_record pid r s = record s { tracker = store_record pid r s.tracker }

  -- The record whose take-profit is taken back.
  unfoldable pub cleared : PositionRecord N → PositionRecord N
  cleared r = record r { close_reason = none; close_trigger_set = []; close_triggered_at = none }

  unfoldable pub take_back : String → PositionRecord N → Seller N → Begun N × Seller N
  take_back pid r s = elim (transition_to open_confirmed r) [
    | err e ↦ (raising e, s)
    | ok r' ↦ (stopped, with_record pid (cleared r') s)
  ]

  -- closing_requested → close_pending
  unfoldable pub send_order : String → PositionRecord N → Seller N → Begun N × Seller N
  send_order pid r s = elim (transition_to close_pending r) [
    | err e ↦ (raising e, s)
    | ok r' ↦ (sending r', with_record pid r' s)
  ]

  -- close_failed → closing_requested first, which is counted as a retry.
  unfoldable pub start_sale : String → PositionRecord N → Seller N → Begun N × Seller N
  unfolding send_order
  start_sale pid r s =
      if is_state r.state close_failed
      then (elim (transition_to closing_requested r) [
        | err e ↦ (raising e, s)
        | ok r' ↦
            send_order pid r' (record (with_record pid r' s) { retry_count = s.retry_count + 1 })
      ])
      else send_order pid r s

module _ {N : Type 0} ⦃f : Float N⦄ where
  unfoldable pub takes_back : SellConfig N → PositionRecord N → N → Bool
  takes_back c r price =
      is_state r.state closing_requested
      && is_take_profit r.close_reason
      && (elim c.evaluator [ none ↦ false | some e ↦ should_cancel_close e r price ])

  unfoldable pub begin_record :
      SellConfig N → String → ℕ → N → PositionRecord N → Seller N → Begun N × Seller N
  begin_record c pid now price r s =
      if not (is_state r.state closing_requested) && not (is_state r.state close_failed)
      then (stopped, s)
      else if in_cooldown c pid now r s
      then (stopped, s)
      else if takes_back c r price
      then take_back pid r s
      else start_sale pid r s

  -- The position is one of the tracker's; where there is none, nothing is done.
  unfoldable pub begin_close : SellConfig N → String → ℕ → N → Seller N → Begun N × Seller N
  begin_close c pid now price s = elim (get_position s.tracker pid) [
    | none ↦ (stopped, s)
    | some r ↦ begin_record c pid now price r s
  ]

  -- taking / making where both are positive, else the price of the entry
  unfoldable pub sell_price : N → N → N → N
  sell_price making taking fallback =
      if (f.zero_f <? making) && (f.zero_f <? taking) then taking ⊘ making else fallback

  abbrev pub sell_rate : SellConfig N → Option N → N
  sell_rate c none = c.default_rate
  sell_rate c (some rate) = rate

  read_reply : SellConfig N → PositionRecord N → SellReply N → Sale N
  read_reply c r sell_failed = unsold
  read_reply c r (sell_matched rate making taking) =
      sold (sell_price making taking r.fill_price) (sell_rate c rate)

  -- `_execute_live_sell`, or the simulated sale of paper mode. `wrapper_set` is false where
  -- `_clob_wrapper` is None.
  unfoldable pub sale : SellConfig N → Bool → N → SellReply N → PositionRecord N → Sale N
  unfolding read_reply
  sale c wrapper_set price reply r =
      if c.paper_mode
      then sold price c.default_rate
      else if not wrapper_set
      then unsold
      else if r.net_position_shares ≤? f.zero_f
      then unsold
      else read_reply c r reply

  -- The balance after a close: booked in paper mode, fetched otherwise.
  unfoldable pub credit : SellConfig N → N → FetchReply N → ℕ → Balance N → Balance N
  credit c amount fetched now b =
      if c.paper_mode then add_amount amount now b else (fetch fetched now b).1

  after_close :
      SellConfig N → String → FetchReply N → ℕ → Seller N → Call N → Result Bool × Seller N
  after_close c pid fetched now s (err e, t) = (err e, record s { tracker = t })
  after_close c pid fetched now s (ok r, t) = (
    ok true,
    record s {
      tracker = t;
      close_count = s.close_count + 1;
      last_close_fail_at = remove s.last_close_fail_at pid;
      balance = credit c r.net_exit_usdc fetched now s.balance;
    },
  )

  -- What follows the sell order.
  unfoldable pub finish_sale :
      SellConfig N
      → String
      → ℕ
      → FetchReply N
      → PositionRecord N
      → Sale N
      → Seller N
      → Result Bool × Seller N
  unfolding after_close
  finish_sale c pid now fetched r (sold price rate) s =
      after_close c pid fetched now s (confirm_close pid price (some rate) now s.tracker)
  finish_sale c pid now fetched r unsold s = elim (transition_to close_failed r) [
    | err e ↦ (err e, s)
    | ok r' ↦ (
      ok false,
      record (with_record pid r' s) { last_close_fail_at = put s.last_close_fail_at pid now },
    )
  ]

  after_begin :
      SellConfig N
      → String
      → ℕ
      → N
      → Bool
      → SellReply N
      → FetchReply N
      → Begun N × Seller N
      → Result Bool × Seller N
  after_begin c pid now price wrapper_set reply fetched (stopped, s) = (ok false, s)
  after_begin c pid now price wrapper_set reply fetched (raising e, s) = (err e, s)
  after_begin c pid now price wrapper_set reply fetched (sending r, s) =
      finish_sale c pid now fetched r (sale c wrapper_set price reply r) s

  unfoldable pub execute_close :
      SellConfig N
      → String
      → ℕ
      → N
      → Bool
      → SellReply N
      → FetchReply N
      → Seller N
      → Result Bool × Seller N
  unfolding after_begin
  execute_close c pid now price wrapper_set reply fetched s =
      after_begin c pid now price wrapper_set reply fetched (begin_close c pid now price s)
