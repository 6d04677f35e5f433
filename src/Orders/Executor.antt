-- ===== src/Orders/Executor.antt =====
-- `OrderExecutor` (backend/execution/order_executor.py). `execute` runs without a wait up to the
-- point where the order is sent, which is `prepare`; the reply of the exchange's SDK is an
-- argument, and what follows it is `finish_live`. In paper mode there is no wait at all.
pub mod Guards
pub mod Paper
pub mod Unfilled
use polyfast.Base.{
  ℕ, zero, ◌+◌, ◌*◌, String, Bool, true, false, not, ◌&&◌, Option, none, some, List, if◌then◌else◌,
  ltb, Result, ok, err, Error, type_error, str_eq,
}
use polyfast.Base.Dict.{values}
use polyfast.Base.Lists.{any}
use polyfast.Float.{Float, ◌⊘◌, ◌<?◌, ◌⊗◌}
use polyfast.Balance.{Balance, FetchReply, is_stale, fetch, deduct}
use polyfast.Position.Record.{PositionRecord, is_pending}
use polyfast.Position.Tracker.{
  Tracker, Call, get_event_fill_count, open_position_count, create_pending, confirm_fill,
  reject_fill,
}
use polyfast.Orders.Intent.{OrderIntent, side_value}
use polyfast.Orders.Validator.{RejectReason, ValidationResult, valid, rejected, Limits, validate}

pub data ExecutionMode : Type 0 where
  paper live : ExecutionMode

-- `OrderResult`, with the reason that `detail` gives for a rejection.
pub data OrderResult : Type 0 where
  filled not_filled network_error balance_stale : OrderResult
  order_rejected : RejectReason → OrderResult
  pending_open_exists : OrderResult

pub record ExecutionResult (N : Type 0) : Type 0 where
  pub result : OrderResult
  pub position_id : Option String
  pub fill_price : N
  pub fee_rate : N

-- The executor's settings, and the default rate of its `FeeRateFetcher`.
pub record Config (N : Type 0) : Type 0 where
  pub mode : ExecutionMode
  pub bot_max : ℕ
  pub min_order_usd : N
  pub default_rate : N
  pub live_order_enabled : Bool  -- `LIVE_ORDER_ENABLED`
  pub wrapper_set : Bool  -- `_clob_wrapper is not None`

-- The executor with the objects that it shares with the rest of the program.
pub record Desk (N : Type 0) : Type 0 where
  pub tracker : Tracker N
  pub balance : Balance N
  pub execution_count : ℕ
  pub fill_count : ℕ
  pub reject_count : ℕ

-- The reply of `send_market_fok_order`; the rate is `fee_rate_bps / 10000` where it is positive.
pub data Reply (N : Type 0) : Type 0 where
  no_reply : Reply N
  matched : Option N → N → N → Reply N  -- rate, making_amount, taking_amount
  unmatched : Reply N  -- "not_matched"
  failed : Reply N  -- any other status

-- What `execute` ends with: its result, or the exception that leaves it.
abbrev pub Executed : Type 0 → Type 0
Executed N = Result (ExecutionResult N) × Desk N

module _ {N : Type 0} ⦃f : Float N⦄ where
  unfoldable pub limits : Config N → OrderIntent N → Desk N → Limits N
  limits c i d = record {
    min_order_usd = c.min_order_usd;
    available_balance = d.balance.available;
    event_fill_count = get_event_fill_count d.tracker i.condition_id;
    event_max = i.event_max;
    open_position_count = open_position_count d.tracker;
    bot_max = c.bot_max;
    has_pending_claims = false;
    wait_for_claim_redeem = true;
  }

  abbrev pub pending_for : String → PositionRecord N → Bool
  pending_for cid r = str_eq r.condition_id cid && is_pending r

  unfoldable pub has_pending_open : OrderIntent N → Desk N → Bool
  has_pending_open i d = any (pending_for i.condition_id) (values d.tracker.positions)

  abbrev pub refused : OrderResult → ExecutionResult N
  refused result = record {
    result = result;
    position_id = none;
    fill_price = f.zero_f;
    fee_rate = f.zero_f;
  }

  -- A stale balance is refused; where it was never fetched, the log line formats an age of None.
  abbrev pub stale_refusal : Balance N → Result OrderResult
  stale_refusal b = elim b.updated_at [ none ↦ err type_error | some at ↦ ok balance_stale ]

  -- The guards of `execute`: none where the order passes, or the refusal or the exception that ends it.
  unfoldable pub check : Config N → ℕ → OrderIntent N → Desk N → Option (Result OrderResult)
  check c now i d =
      if is_stale now d.balance
      then some (stale_refusal d.balance)
      else if has_pending_open i d
      then some (ok pending_open_exists)
      else (elim (validate i (limits c i d)) [
        | valid ↦ none
        | rejected r ↦ some (ok (order_rejected r))
      ])

  -- `_reject_count` counts the validator's refusals only.
  unfoldable pub count_refusal : Result OrderResult → Desk N → Desk N
  count_refusal (ok (order_rejected r)) d = record d { reject_count = d.reject_count + 1 }
  count_refusal _ d = d

  unfoldable pub open_pending : String → ℕ → OrderIntent N → Desk N → Desk N
  open_pending pid now i d = record d {
    tracker =
        (create_pending pid now i.asset (side_value i.side) i.condition_id i.token_id i.amount_usd
          d.tracker).1;
  }

  abbrev pub count_execution : Desk N → Desk N
  count_execution d = record d { execution_count = d.execution_count + 1 }

  -- The part of `execute` before the order is sent: none, or how it ends there, and the desk.
  unfoldable pub prepare :
      Config N → String → ℕ → OrderIntent N → Desk N → Option (Result OrderResult) × Desk N
  prepare c pid now i d = elim (check c now i d) [
    | some refusal ↦ (some refusal, count_refusal refusal (count_execution d))
    | none ↦ (none, open_pending pid now i (count_execution d))
  ]

  abbrev pub filled_at : String → N → N → ExecutionResult N
  filled_at pid price rate = record {
    result = filled;
    position_id = some pid;
    fill_price = price;
    fee_rate = rate;
  }

  unfoldable pub paper_booked : Config N → String → ℕ → OrderIntent N → Desk N → Executed N
  paper_booked c pid now i d = (
    ok (filled_at pid i.dominant_price c.default_rate),
    record d { fill_count = d.fill_count + 1; balance = deduct i.amount_usd now d.balance },
  )

  after_paper_fill : Config N → String → ℕ → OrderIntent N → Desk N → Call N → Executed N
  unfolding paper_booked
  after_paper_fill c pid now i d (err e, t) = (err e, record d { tracker = t })
  after_paper_fill c pid now i d (ok r, t) = paper_booked c pid now i (record d { tracker = t })

  -- `_execute_paper`
  unfoldable pub execute_paper : Config N → String → ℕ → OrderIntent N → Desk N → Executed N
  unfolding after_paper_fill
  execute_paper c pid now i d =
      after_paper_fill c pid now i d
        (confirm_fill pid i.dominant_price (some c.default_rate) now d.tracker)

  abbrev pub unfilled_at : String → OrderResult → ExecutionResult N
  unfilled_at pid result = record {
    result = result;
    position_id = some pid;
    fill_price = f.zero_f;
    fee_rate = f.zero_f;
  }

  after_rejection : OrderResult → String → Desk N → Call N → Executed N
  after_rejection result pid d (err e, t) = (err e, record d { tracker = t })
  after_rejection result pid d (ok r, t) = (ok (unfilled_at pid result), record d { tracker = t })

  -- The live path's way out without a fill: the pending position is rejected.
  unfoldable pub give_up : OrderResult → String → ℕ → Desk N → Executed N
  unfolding after_rejection
  give_up result pid now d = after_rejection result pid d (reject_fill pid now d.tracker)

  -- making / taking where both are positive, else the intent's price
  unfoldable pub buy_price : N → N → N → N
  buy_price making taking fallback =
      if (f.zero_f <? making) && (f.zero_f <? taking) then making ⊘ taking else fallback

  abbrev pub rate_or_default : Option N → N → N
  rate_or_default none default = default
  rate_or_default (some rate) default = rate

  after_live_fill : N → N → String → ℕ → FetchReply N → Desk N → Call N → Executed N
  after_live_fill price rate pid now fetched d (err e, t) = (err e, record d { tracker = t })
  after_live_fill price rate pid now fetched d (ok r, t) = (
    ok (filled_at pid price rate),
    record d {
      tracker = t;
      fill_count = d.fill_count + 1;
      balance = (fetch fetched now d.balance).1;
    },
  )

  unfoldable pub live_filled : N → N → String → ℕ → FetchReply N → Desk N → Executed N
  unfolding after_live_fill
  live_filled price rate pid now fetched d =
      after_live_fill price rate pid now fetched d
        (confirm_fill pid price (some rate) now d.tracker)

  -- `_execute_live` from the reply on; `fetched` answers the fetch after a fill.
  unfoldable pub finish_live :
      Config N → String → ℕ → OrderIntent N → Reply N → FetchReply N → Desk N → Executed N
  finish_live c pid now i no_reply fetched d = give_up network_error pid now d
  finish_live c pid now i unmatched fetched d = give_up not_filled pid now d
  finish_live c pid now i failed fetched d = give_up network_error pid now d
  finish_live c pid now i (matched rate making taking) fetched d =
      live_filled (buy_price making taking i.dominant_price) (rate_or_default rate c.default_rate)
        pid now fetched d

  -- `_execute_live`
  unfoldable pub execute_live :
      Config N → String → ℕ → OrderIntent N → Reply N → FetchReply N → Desk N → Executed N
  execute_live c pid now i reply fetched d =
      if not c.live_order_enabled
      then give_up not_filled pid now d
      else if not c.wrapper_set
      then give_up network_error pid now d
      else finish_live c pid now i reply fetched d

  -- The branch on `_mode`.
  unfoldable pub send :
      ExecutionMode
      → Config N
      → String
      → ℕ
      → OrderIntent N
      → Reply N
      → FetchReply N
      → Desk N
      → Executed N
  send paper c pid now i reply fetched d = execute_paper c pid now i d
  send live c pid now i reply fetched d = execute_live c pid now i reply fetched d

  after_prepare :
      Config N
      → String
      → ℕ
      → OrderIntent N
      → Reply N
      → FetchReply N
      → Option (Result OrderResult) × Desk N
      → Executed N
  after_prepare c pid now i reply fetched (some (ok r), d) = (ok (refused r), d)
  after_prepare c pid now i reply fetched (some (err e), d) = (err e, d)
  after_prepare c pid now i reply fetched (none, d) = send c.mode c pid now i reply fetched d

  -- `execute`, where no other task runs while the live order is on its way.
  unfoldable pub execute :
      Config N → String → ℕ → OrderIntent N → Reply N → FetchReply N → Desk N → Executed N
  unfolding after_prepare
  execute c pid now i reply fetched d =
      after_prepare c pid now i reply fetched (prepare c pid now i d)
