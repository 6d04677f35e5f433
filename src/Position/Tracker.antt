-- ===== src/Position/Tracker.antt =====
-- `PositionTracker` (backend/execution/position_tracker.py). A method takes the state and the
-- current time and returns its outcome with the state that it leaves, also where it raises.
-- The tracker's records are the ones that its callers mutate, so a caller works through the
-- identifier. `scheduled` lists the positions for which `_persist` created a save task.
use polyfast.Base.{
  ℕ, suc, ◌+◌, ◌-◌, String, Bool, true, false, Option, none, some, List, [], ◌∷◌, if◌then◌else◌,
  ltb, Result, ok, err, key_error, str_eq, ◌&&◌,
}
use polyfast.Base.Dict.{Dict, get, put, values}
use polyfast.Base.Lists.{select, count_if}
mod Counts
pub mod Updates
pub mod Behaviour
pub mod Requests
pub mod Discipline
pub mod Orders
pub mod Invariant
use polyfast.Float.{Float, ◌⊖◌}
use polyfast.Position.State.{
  PositionState, pending_open, open_confirmed, closing_requested, close_pending, closed,
  close_failed, CloseReason, ForceSellTrigger, is_state,
}
use polyfast.Position.Record.{PositionRecord, transition_to, is_open}
use polyfast.Position.Fees.{EntryFill, ExitFill, calculate_entry, calculate_exit}

pub record Tracker (N : Type 0) : Type 0 where
  pub positions : Dict (PositionRecord N)
  pub fee_rate : N  -- of `_fee_calc`
  pub store_set : Bool  -- `_store is not None`, with a running event loop
  pub event_fills : Dict ℕ
  pub session_trade_count : ℕ
  pub scheduled : List String

-- `d.get(k, 0)`
unfoldable pub get_or_zero : Dict ℕ → String → ℕ
get_or_zero d k = elim (get d k) [ none ↦ 0 | some n ↦ n ]

-- `d[k] = d.get(k, 0) + 1`
unfoldable pub increment : Dict ℕ → String → Dict ℕ
increment d k = put d k (get_or_zero d k + 1)

module _ {N : Type 0} where
  unfoldable pub reset : Tracker N → Tracker N
  reset t = record t { positions = []; event_fills = []; session_trade_count = 0 }

  -- `_persist`
  unfoldable pub persist : String → Tracker N → Tracker N
  persist pid t = record t { scheduled = if t.store_set then pid ∷ t.scheduled else t.scheduled }

  -- The record at `pid` that a method has mutated.
  unfoldable pub store_record : String → PositionRecord N → Tracker N → Tracker N
  store_record pid r t = record t { positions = put t.positions pid r }

  unfoldable pub restore_position : PositionRecord N → Tracker N → Tracker N
  restore_position r t = record t {
    positions = put t.positions r.position_id r;
    event_fills = increment t.event_fills r.condition_id;
    session_trade_count =
        if is_state r.state pending_open then t.session_trade_count else t.session_trade_count + 1;
  }

  -- `_get_record`
  abbrev pub get_position : Tracker N → String → Option (PositionRecord N)
  get_position t pid = get t.positions pid

  unfoldable pub get_event_fill_count : Tracker N → String → ℕ
  get_event_fill_count t cid = get_or_zero t.event_fills cid

  unfoldable pub open_position_count : Tracker N → ℕ
  open_position_count t = count_if is_open (values t.positions)

  unfoldable pub get_open_positions : Tracker N → List (PositionRecord N)
  get_open_positions t = select is_open (values t.positions)

  unfoldable pub get_positions_by_condition : Tracker N → String → List (PositionRecord N)
  get_positions_by_condition t cid = select (λ r. str_eq r.condition_id cid) (values t.positions)

-- What a method that returns the record has done.
abbrev pub Call : Type 0 → Type 0
Call N = Result (PositionRecord N) × Tracker N

module _ {N : Type 0} ⦃f : Float N⦄ where
  -- The record that `PositionRecord(…)` makes for a pending order.
  unfoldable pub new_record : String → ℕ → String → String → String → String → N → PositionRecord N
  new_record pid now asset side condition_id token_id requested = record {
    position_id = pid;
    asset = asset;
    side = side;
    condition_id = condition_id;
    token_id = token_id;
    state = pending_open;
    created_at = now;
    requested_amount_usd = requested;
    fill_price = f.zero_f;
    gross_fill_shares = f.zero_f;
    entry_fee_shares = f.zero_f;
    net_position_shares = f.zero_f;
    fee_rate = f.zero_f;
    opened_at = none;
    exit_fill_price = f.zero_f;
    exit_gross_usdc = f.zero_f;
    actual_exit_fee_usdc = f.zero_f;
    net_exit_usdc = f.zero_f;
    net_realized_pnl = f.zero_f;
    close_reason = none;
    close_trigger_set = [];
    close_triggered_at = none;
    close_requested_price = f.zero_f;
    closed_at = none;
  }

  -- `pid` is the new `uuid.uuid4()`.
  unfoldable pub create_pending :
      String → ℕ → String → String → String → String → N → Tracker N → PositionRecord N × Tracker N
  create_pending pid now asset side condition_id token_id requested t =
      let r = new_record pid now asset side condition_id token_id requested in
      let t' = record t {
        positions = put t.positions pid r;
        event_fills = increment t.event_fills condition_id;
      } in
      (r, persist pid t')

  -- The entry fields of the record, as `confirm_fill` writes them before the transition.
  unfoldable pub write_entry : N → EntryFill N → ℕ → PositionRecord N → PositionRecord N
  write_entry fill_price entry now r = record r {
    fill_price = fill_price;
    gross_fill_shares = entry.gross_fill_shares;
    entry_fee_shares = entry.entry_fee_shares;
    net_position_shares = entry.net_position_shares;
    fee_rate = entry.fee_rate;
    opened_at = some now;
  }

  abbrev pub rate_given : Option N → Tracker N → N
  rate_given none t = t.fee_rate
  rate_given (some rate) t = rate

  confirm_transition : String → PositionRecord N → Tracker N → Call N
  confirm_transition pid r t = elim (transition_to open_confirmed r) [
    | err e ↦ (err e, store_record pid r t)
    | ok r' ↦ (
      ok r',
      persist r.position_id
          (record (store_record pid r' t) { session_trade_count = t.session_trade_count + 1 }),
    )
  ]

  confirm_entry : String → N → Result (EntryFill N) → ℕ → PositionRecord N → Tracker N → Call N
  confirm_entry pid fill_price (err e) now r t = (err e, t)
  confirm_entry pid fill_price (ok entry) now r t =
      confirm_transition pid (write_entry fill_price entry now r) t

  unfoldable pub confirm_fill : String → N → Option N → ℕ → Tracker N → Call N
  unfolding confirm_entry confirm_transition
  confirm_fill pid fill_price fee_rate now t = elim (get_position t pid) [
    | none ↦ (err key_error, t)
    | some r ↦
        confirm_entry pid fill_price
          (calculate_entry (rate_given fee_rate t) r.requested_amount_usd fill_price) now r t
  ]

  -- The counter is lowered before the transition is tried.
  unfoldable pub lower_fills : String → Tracker N → Tracker N
  lower_fills cid t =
      let current = get_or_zero t.event_fills cid in
      if ltb 0 current then record t { event_fills = put t.event_fills cid (current - 1) } else t

  reject_transition : String → PositionRecord N → ℕ → Tracker N → Call N
  reject_transition pid r now t = elim (transition_to closed r) [
    | err e ↦ (err e, t)
    | ok r' ↦ let r'' = record r' { closed_at = some now } in (ok r'', store_record pid r'' t)
  ]

  unfoldable pub reject_fill : String → ℕ → Tracker N → Call N
  unfolding lower_fills reject_transition
  reject_fill pid now t = elim (get_position t pid) [
    | none ↦ (err key_error, t)
    | some r ↦ reject_transition pid r now (lower_fills r.condition_id t)
  ]

  request_transition :
      String → CloseReason → List ForceSellTrigger → N → ℕ → PositionRecord N → Tracker N → Call N
  request_transition pid reason trigger_set price now r t =
      elim (transition_to closing_requested r) [
        | err e ↦ (err e, t)
        | ok r' ↦
            let r'' = record r' {
              close_reason = some reason;
              close_trigger_set = trigger_set;
              close_triggered_at = some now;
              close_requested_price = price;
            } in
            (ok r'', persist r''.position_id (store_record pid r'' t))
      ]

  -- `trigger_set or []`: a missing set is the empty list.
  unfoldable pub request_close :
      String → CloseReason → List ForceSellTrigger → N → ℕ → Tracker N → Call N
  unfolding request_transition
  request_close pid reason trigger_set price now t = elim (get_position t pid) [
    | none ↦ (err key_error, t)
    | some r ↦ request_transition pid reason trigger_set price now r t
  ]

  -- The exit fields of a record that is closed.
  unfoldable pub write_exit : N → ExitFill N → ℕ → PositionRecord N → PositionRecord N
  write_exit exit_fill_price e now r = record r {
    exit_fill_price = exit_fill_price;
    exit_gross_usdc = e.exit_gross_usdc;
    actual_exit_fee_usdc = e.actual_exit_fee_usdc;
    net_exit_usdc = e.net_exit_usdc;
    net_realized_pnl = f.round (e.net_exit_usdc ⊖ r.requested_amount_usd) 4;
    closed_at = some now;
  }

  -- `closing_requested` passes through `close_pending` first.
  close_transition : PositionRecord N → Result (PositionRecord N)
  close_transition r =
      if is_state r.state closing_requested
      then (elim (transition_to close_pending r) [
        | err e ↦ err e
        | ok r' ↦ transition_to closed r'
      ])
      else transition_to closed r

  finish_close : String → N → N → ℕ → PositionRecord N → Tracker N → Call N
  finish_close pid exit_fill_price rate now r t = elim (close_transition r) [
    | err e ↦ (err e, t)
    | ok r' ↦
        let r'' =
          write_exit exit_fill_price (calculate_exit rate r.net_position_shares exit_fill_price) now
            r' in
        (ok r'', persist r''.position_id (store_record pid r'' t))
  ]

  unfoldable pub confirm_close : String → N → Option N → ℕ → Tracker N → Call N
  unfolding finish_close close_transition
  confirm_close pid exit_fill_price fee_rate now t = elim (get_position t pid) [
    | none ↦ (err key_error, t)
    | some r ↦ finish_close pid exit_fill_price (rate_given fee_rate t) now r t
  ]
