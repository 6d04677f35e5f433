-- ===== src/Persistence/Positions/Row.antt =====
-- A position's row: the values that `PositionStore.save` writes, and `_row_to_record`
-- (backend/persistence/position_store.py).
use polyfast.Base.{ℕ, String, ◌≡◌, Option, none, some, List, [], if◌then◌else◌, refl, str_eq, arith}
use polyfast.Position.State.{CloseReason, ForceSellTrigger}
use polyfast.Position.Record.{PositionRecord}
use polyfast.Persistence.Columns.{
  Texts, member_of, ◌>>=◌, state_value, states, reason_value, reasons, time_column, read_time,
  state-found, reason-found, reason_value-nonempty, read_time-column,
}

-- A row of `positions`.
pub record PositionRow (N : Type 0) : Type 0 where
  pub position_id : String
  pub asset : String
  pub side : String
  pub condition_id : String
  pub token_id : String
  pub state : String
  pub created_at : String
  pub requested_amount_usd : N
  pub fill_price : N
  pub gross_fill_shares : N
  pub entry_fee_shares : N
  pub net_position_shares : N
  pub fee_rate : N
  pub opened_at : Option String
  pub exit_fill_price : N
  pub exit_gross_usdc : N
  pub actual_exit_fee_usdc : N
  pub net_exit_usdc : N
  pub net_realized_pnl : N
  pub close_reason : Option String
  pub close_trigger_set : String
  pub close_triggered_at : Option String
  pub close_requested_price : N
  pub closed_at : Option String
  pub updated_at : String

abbrev pub position_key : {N : Type 0} → PositionRow N → String
position_key r = r.position_id

-- `pos.close_reason.value if pos.close_reason else None`
abbrev pub reason_column : Option CloseReason → Option String
reason_column none = none
reason_column (some r) = some (reason_value r)

-- A text that is no reason gives none.
unfoldable pub read_reason : Option String → Option CloseReason
read_reason none = none
read_reason (some c) = if str_eq c "" then none else member_of reason_value reasons c

read_reason-column : (r : Option CloseReason) → read_reason (reason_column r) ≡ r
unfolding read_reason
read_reason-column none = refl
read_reason-column (some r) = rw (reason_value-nonempty r, reason-found r) refl

module _ (x : Texts) where
  -- A text that is not JSON gives an empty list.
  unfoldable pub read_triggers : String → List ForceSellTrigger
  read_triggers c =
      if str_eq c "" then [] else (elim (x.loads c) [ none ↦ [] | some triggers ↦ triggers ])

  read_triggers-dumps : (ts : List ForceSellTrigger) → read_triggers (x.dumps ts) ≡ ts
  unfolding read_triggers
  read_triggers-dumps ts = rw (x.dumps-nonempty ts, x.loads-dumps ts) refl

module _ {N : Type 0} (x : Texts) where
  -- The values of the `INSERT`.
  unfoldable pub position_row : ℕ → PositionRecord N → PositionRow N
  position_row now p = record {
    position_id = p.position_id;
    asset = p.asset;
    side = p.side;
    condition_id = p.condition_id;
    token_id = p.token_id;
    state = state_value p.state;
    created_at = x.isoformat p.created_at;
    requested_amount_usd = p.requested_amount_usd;
    fill_price = p.fill_price;
    gross_fill_shares = p.gross_fill_shares;
    entry_fee_shares = p.entry_fee_shares;
    net_position_shares = p.net_position_shares;
    fee_rate = p.fee_rate;
    opened_at = time_column x p.opened_at;
    exit_fill_price = p.exit_fill_price;
    exit_gross_usdc = p.exit_gross_usdc;
    actual_exit_fee_usdc = p.actual_exit_fee_usdc;
    net_exit_usdc = p.net_exit_usdc;
    net_realized_pnl = p.net_realized_pnl;
    close_reason = reason_column p.close_reason;
    close_trigger_set = x.dumps p.close_trigger_set;
    close_triggered_at = time_column x p.close_triggered_at;
    close_requested_price = p.close_requested_price;
    closed_at = time_column x p.closed_at;
    updated_at = x.isoformat now;
  }

  -- `_row_to_record`; `none` where it raises.
  unfoldable pub row_to_position : PositionRow N → Option (PositionRecord N)
  row_to_position r = do
    state ← member_of state_value states r.state
    created_at ← x.fromisoformat r.created_at
    opened_at ← read_time x r.opened_at
    close_triggered_at ← read_time x r.close_triggered_at
    closed_at ← read_time x r.closed_at
    some (record {
      position_id = r.position_id;
      asset = r.asset;
      side = r.side;
      condition_id = r.condition_id;
      token_id = r.token_id;
      state = state;
      created_at = created_at;
      requested_amount_usd = r.requested_amount_usd;
      fill_price = r.fill_price;
      gross_fill_shares = r.gross_fill_shares;
      entry_fee_shares = r.entry_fee_shares;
      net_position_shares = r.net_position_shares;
      fee_rate = r.fee_rate;
      opened_at = opened_at;
      exit_fill_price = r.exit_fill_price;
      exit_gross_usdc = r.exit_gross_usdc;
      actual_exit_fee_usdc = r.actual_exit_fee_usdc;
      net_exit_usdc = r.net_exit_usdc;
      net_realized_pnl = r.net_realized_pnl;
      close_reason = read_reason r.close_reason;
      close_trigger_set = read_triggers x r.close_trigger_set;
      close_triggered_at = close_triggered_at;
      close_requested_price = r.close_requested_price;
      closed_at = closed_at;
    })

  pub row_to_position-row :
      (now : ℕ) (p : PositionRecord N) → row_to_position (position_row now p) ≡ some p
  unfolding row_to_position position_row
  row_to_position-row now p =
      rw
        (
          state-found p.state,
          x.fromisoformat-isoformat p.created_at,
          read_time-column x p.opened_at,
          read_time-column x p.close_triggered_at,
          read_time-column x p.closed_at,
          read_reason-column p.close_reason,
          read_triggers-dumps x p.close_trigger_set,
        )
        refl

  -- What is read has the row's key.
  pub row_to_position-key :
      (r : PositionRow N) (p : PositionRecord N)
      → row_to_position r ≡ some p
      → p.position_id ≡ position_key r
  unfolding row_to_position
  row_to_position-key r p e = ground arith
