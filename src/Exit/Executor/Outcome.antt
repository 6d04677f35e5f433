-- ===== src/Exit/Executor/Outcome.antt =====
-- The outcomes of `ExitExecutor.execute_close`, and what becomes of the latched reason.
use polyfast.Base.{
  ℕ, ◌+◌, String, Bool, true, false, ◌≡◌, ◌⊎◌, inl, inr, refl, some, Result, ok, arith, Bool-cases,
}
use polyfast.Base.Dict.{get-put_self}
use polyfast.Float.{Float, ◌⊕◌, ◌⊖◌}
use polyfast.Balance.{FetchReply, add_amount}
use polyfast.Position.State.{closed, close_failed}
use polyfast.Position.Record.{PositionRecord}
use polyfast.Position.Tracker.{get_position, persist, store_record, write_exit}
use polyfast.Exit.Executor.{
  SellConfig, Seller, SellReply, Sale, sold, unsold, stopped, takes_back, begin_record, begin_close,
  sale, credit, finish_sale, after_begin, execute_close,
}
use polyfast.Exit.Executor.Sellable.{
  is_sellable, selling, in_sale, sold_record, sold_out, finish_sold, unsold_out, finish_unsold,
  execute_sellable,
}

module _ {N : Type 0} ⦃f : Float N⦄ where
  sale_paper :
      (c : SellConfig N) (wrapper_set : Bool) (price : N) (reply : SellReply N)
      (r : PositionRecord N)
      → c.paper_mode ≡ true
      → sale c wrapper_set price reply r ≡ sold price c.default_rate
  unfolding sale
  sale_paper c wrapper_set price reply r paper = ground arith

  paper_effect :
      (c : SellConfig N) (pid : String) (now : ℕ) (fetched : FetchReply N) (price : N)
      (r : PositionRecord N) (s : Seller N)
      → c.paper_mode ≡ true
      → let r' = sold_record price c.default_rate now r in
        let s' = sold_out c pid fetched now r' (selling pid r s) in
        (◌≡◌ {A = Result Bool} (ok true) (ok true))
        × (get_position s'.tracker pid ≡ some r')
        × (r'.state ≡ closed)
        × (r'.net_realized_pnl ≡ f.round (r'.net_exit_usdc ⊖ r.requested_amount_usd) 4)
        × (r'.close_reason ≡ r.close_reason)
        × (r'.close_trigger_set ≡ r.close_trigger_set)
        × (s'.balance.available ≡ s.balance.available ⊕ r'.net_exit_usdc)
        × (s'.close_count ≡ s.close_count + 1)
  unfolding sold_out persist store_record credit add_amount selling
  paper_effect c pid now fetched price r s paper = (
    refl,
    get-put_self _ pid (sold_record price c.default_rate now r),
    unfold sold_record write_exit in refl,
    unfold sold_record write_exit in refl,
    unfold sold_record write_exit in refl,
    unfold sold_record write_exit in refl,
    ground arith,
    refl,
  )

  -- In paper mode a position that may be sold is closed at the given price: the call returns True,
  -- the realised profit is the net proceeds less the amount paid, the reason and the triggers of
  -- the close stay, the net proceeds are added to the balance and the close is counted.
  pub execute_close-paper :
      (c : SellConfig N) (pid : String) (now : ℕ) (price : N) (wrapper_set : Bool)
      (reply : SellReply N) (fetched : FetchReply N) (s : Seller N) (r : PositionRecord N)
      → c.paper_mode ≡ true
      → get_position s.tracker pid ≡ some r
      → is_sellable c pid now price r s ≡ true
      → let (outcome, s') = execute_close c pid now price wrapper_set reply fetched s in
        let r' = sold_record price c.default_rate now r in
        (outcome ≡ ok true)
        × (get_position s'.tracker pid ≡ some r')
        × (r'.state ≡ closed)
        × (r'.net_realized_pnl ≡ f.round (r'.net_exit_usdc ⊖ r.requested_amount_usd) 4)
        × (r'.close_reason ≡ r.close_reason)
        × (r'.close_trigger_set ≡ r.close_trigger_set)
        × (s'.balance.available ≡ s.balance.available ⊕ r'.net_exit_usdc)
        × (s'.close_count ≡ s.close_count + 1)
  execute_close-paper c pid now price wrapper_set reply fetched s r paper found may =
      rw (execute_sellable c pid now price wrapper_set reply fetched s r found may) (
        rw (sale_paper c wrapper_set price reply (in_sale r) paper) (
          rw (finish_sold c pid now fetched r price c.default_rate s)
            (paper_effect c pid now fetched price r s paper)))

  unsellable :
      (c : SellConfig N) (pid : String) (now : ℕ) (price : N) (r : PositionRecord N) (s : Seller N)
      → takes_back c r price ≡ false
      → is_sellable c pid now price r s ≡ false
      → begin_record c pid now price r s ≡ (stopped, s)
  unfolding begin_record
  unsellable c pid now price r s latched h = ground arith

  execute_unsellable :
      (c : SellConfig N) (pid : String) (now : ℕ) (price : N) (wrapper_set : Bool)
      (reply : SellReply N) (fetched : FetchReply N) (s : Seller N) (r : PositionRecord N)
      → get_position s.tracker pid ≡ some r
      → takes_back c r price ≡ false
      → is_sellable c pid now price r s ≡ false
      → execute_close c pid now price wrapper_set reply fetched s ≡ (ok false, s)
  unfolding execute_close begin_close
  execute_unsellable c pid now price wrapper_set reply fetched s r found latched h =
      rw (found, begin_close) (rw (unsellable c pid now price r s latched h, after_begin))

  -- The call ends in a close, in a failed close, or with the record as it was, and the close's
  -- reason and triggers stay.
  abbrev pub Ends : String → PositionRecord N → Result Bool × Seller N → Type 0
  Ends pid r done =
      (r' : PositionRecord N) × (get_position done.1.tracker pid ≡ some r')
      × (r'.close_reason ≡ r.close_reason)
      × (r'.close_trigger_set ≡ r.close_trigger_set)
      × (((done.0 ≡ ok true) × (r'.state ≡ closed))
          ⊎ ((done.0 ≡ ok false) × ((r'.state ≡ close_failed) ⊎ (r' ≡ r))))

  finish-Ends :
      (c : SellConfig N) (pid : String) (now : ℕ) (fetched : FetchReply N) (r : PositionRecord N)
      (o : Sale N) (s : Seller N)
      → Ends pid r (finish_sale c pid now fetched (in_sale r) o (selling pid r s))
  unfolding sold_out unsold_out persist store_record
  finish-Ends c pid now fetched r (sold price rate) s =
      let r' = sold_record price rate now r in
      rw (finish_sold c pid now fetched r price rate s) (
        r',
        get-put_self _ pid r',
        unfold sold_record write_exit in refl,
        unfold sold_record write_exit in refl,
        inl (refl, unfold sold_record write_exit in refl),
      )
  finish-Ends c pid now fetched r unsold s =
      rw (finish_unsold c pid now fetched r (selling pid r s)) (
        record r { state = close_failed },
        get-put_self _ pid (record r { state = close_failed }),
        refl,
        refl,
        inr (refl, inl refl),
      )

  -- Every attempt on a tracked position whose take-profit is not taken back returns normally. It
  -- returns True where it closed the position; else it returns False and the position has failed to
  -- close or is as it was. The reason and the trigger set of the close stay in every case.
  pub execute_close-latch :
      (c : SellConfig N) (pid : String) (now : ℕ) (price : N) (wrapper_set : Bool)
      (reply : SellReply N) (fetched : FetchReply N) (s : Seller N) (r : PositionRecord N)
      → get_position s.tracker pid ≡ some r
      → takes_back c r price ≡ false
      → Ends pid r (execute_close c pid now price wrapper_set reply fetched s)
  execute_close-latch c pid now price wrapper_set reply fetched s r found latched =
      elim (Bool-cases (is_sellable c pid now price r s)) [
        | inl may ↦
            rw (execute_sellable c pid now price wrapper_set reply fetched s r found may)
              (finish-Ends c pid now fetched r _ s)
        | inr idle ↦
            rw (execute_unsellable c pid now price wrapper_set reply fetched s r found latched idle)
              (r, found, refl, refl, inr (refl, inr refl))
      ]
