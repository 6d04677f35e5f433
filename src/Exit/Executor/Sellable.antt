-- ===== src/Exit/Executor/Sellable.antt =====
-- A close of a position that may be sold, step by step.
use polyfast.Base.{
  ℕ, ◌+◌, String, Bool, true, false, not, ◌&&◌, ◌||◌, ◌≡◌, inl, refl, some, ok, arith,
  if◌then◌else◌,
}
use polyfast.Base.Dict.{put, remove, get-put_self}
use polyfast.Float.{Float}
use polyfast.Balance.{FetchReply}
use polyfast.Position.State.{
  closing_requested, close_pending, closed, close_failed, is_state, allowed,
}
use polyfast.Position.Record.{PositionRecord, transition_to}
use polyfast.Position.Fees.{calculate_exit}
use polyfast.Position.Tracker.{get_position, persist, store_record, write_exit}
use polyfast.Position.Tracker.Behaviour.{confirm_close_lem}
use polyfast.Exit.Executor.{
  SellConfig, Seller, SellReply, sold, unsold, sending, in_cooldown, with_record, start_sale,
  takes_back, begin_record, begin_close, sale, credit, finish_sale, after_begin, execute_close,
}

module _ {N : Type 0} ⦃f : Float N⦄ where
  -- The position may be sold now: a close was asked for or has failed, no cooldown runs, and the
  -- close is not taken back.
  abbrev pub is_sellable : SellConfig N → String → ℕ → N → PositionRecord N → Seller N → Bool
  is_sellable c pid now price r s =
      (is_state r.state closing_requested || is_state r.state close_failed)
      && not (in_cooldown c pid now r s)
      && not (takes_back c r price)

  -- The seller while the sell order is on its way.
  unfoldable pub selling : String → PositionRecord N → Seller N → Seller N
  selling pid r s = record s {
    tracker =
        store_record pid (record r { state = close_pending })
          (if is_state r.state close_failed
            then store_record pid (record r { state = closing_requested }) s.tracker
            else s.tracker);
    retry_count = if is_state r.state close_failed then s.retry_count + 1 else s.retry_count;
  }

  start_sale_lem :
      (pid : String) (r : PositionRecord N) (s : Seller N)
      → (is_state r.state closing_requested || is_state r.state close_failed) ≡ true
      → start_sale pid r s ≡ (sending (record r { state = close_pending }), selling pid r s)
  unfolding start_sale transition_to allowed selling
  start_sale_lem pid r s h = ground arith

  begin_sellable :
      (c : SellConfig N) (pid : String) (now : ℕ) (price : N) (r : PositionRecord N) (s : Seller N)
      → is_sellable c pid now price r s ≡ true
      → begin_record c pid now price r s
        ≡ (sending (record r { state = close_pending }), selling pid r s)
  unfolding begin_record
  begin_sellable c pid now price r s h = ground (arith, start_sale_lem pid r s)

  -- The record on its way to the exchange.
  abbrev pub in_sale : PositionRecord N → PositionRecord N
  in_sale r = record r { state = close_pending }

  get-selling :
      (pid : String) (r : PositionRecord N) (s : Seller N)
      → get_position (selling pid r s).tracker pid ≡ some (in_sale r)
  unfolding selling store_record
  get-selling pid r s = get-put_self _ pid (in_sale r)

  -- The record after a sale.
  unfoldable pub sold_record : N → N → ℕ → PositionRecord N → PositionRecord N
  sold_record price rate now r =
      write_exit price (calculate_exit rate r.net_position_shares price) now
        (record r { state = closed })

  -- The seller after a sale.
  unfoldable pub sold_out :
      SellConfig N → String → FetchReply N → ℕ → PositionRecord N → Seller N → Seller N
  sold_out c pid fetched now r s = record s {
    tracker = persist r.position_id (store_record pid r s.tracker);
    close_count = s.close_count + 1;
    last_close_fail_at = remove s.last_close_fail_at pid;
    balance = credit c r.net_exit_usdc fetched now s.balance;
  }

  pub finish_sold :
      (c : SellConfig N) (pid : String) (now : ℕ) (fetched : FetchReply N) (r : PositionRecord N)
      (price rate : N) (s : Seller N)
      → finish_sale c pid now fetched (in_sale r) (sold price rate) (selling pid r s)
        ≡ (ok true, sold_out c pid fetched now (sold_record price rate now r) (selling pid r s))
  unfolding finish_sale sold_record sold_out
  finish_sold c pid now fetched r price rate s = rw (
    confirm_close_lem pid price rate now (in_sale r) (selling pid r s).tracker (get-selling pid r s)
        (inl (unfold allowed in refl)),
    finish_sale,
  )

  -- The seller after a sell order that did not fill.
  unfoldable pub unsold_out : String → ℕ → PositionRecord N → Seller N → Seller N
  unsold_out pid now r s = record (with_record pid (record r { state = close_failed }) s) {
    last_close_fail_at = put s.last_close_fail_at pid now;
  }

  pub finish_unsold :
      (c : SellConfig N) (pid : String) (now : ℕ) (fetched : FetchReply N) (r : PositionRecord N)
      (s : Seller N)
      → finish_sale c pid now fetched (in_sale r) unsold s ≡ (ok false, unsold_out pid now r s)
  unfolding finish_sale transition_to allowed unsold_out
  finish_unsold c pid now fetched r s = refl

  -- A position that may be sold is sent to the exchange, and the sale decides the rest.
  pub execute_sellable :
      (c : SellConfig N) (pid : String) (now : ℕ) (price : N) (wrapper_set : Bool)
      (reply : SellReply N) (fetched : FetchReply N) (s : Seller N) (r : PositionRecord N)
      → get_position s.tracker pid ≡ some r
      → is_sellable c pid now price r s ≡ true
      → execute_close c pid now price wrapper_set reply fetched s
        ≡ finish_sale c pid now fetched
            (in_sale r)
            (sale c wrapper_set price reply (in_sale r))
            (selling pid r s)
  unfolding execute_close begin_close
  execute_sellable c pid now price wrapper_set reply fetched s r found may =
      rw (found, begin_close) (rw (begin_sellable c pid now price r s may, after_begin))
