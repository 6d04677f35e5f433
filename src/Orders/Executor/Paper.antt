-- ===== src/Orders/Executor/Paper.antt =====
-- What a paper order leaves behind: a fill, or an exception at a price of 0.
use polyfast.Base.{
  ℕ, ◌+◌, String, true, false, ◌≡◌, refl, none, some, ok, err, zero_division, subst,
}
use polyfast.Base.Dict.{get-put_self}
use polyfast.Float.{Float, ◌⊖◌}
use polyfast.Balance.{FetchReply, deduct, max_zero}
use polyfast.Position.State.{open_confirmed, pending_open}
use polyfast.Position.Record.{PositionRecord}
use polyfast.Position.Tracker.{
  get_position, create_pending, new_record, persist, store_record, lower_fills,
}
use polyfast.Position.Tracker.Behaviour.{
  filled_record, filled_tracker, rejected_record, confirm_fill-pending, confirm_fill-zero,
  reject_fill-pending,
}
use polyfast.Orders.Intent.{OrderIntent, side_value}
use polyfast.Orders.Executor.{
  Config, Desk, OrderResult, ExecutionMode, paper, Reply, open_pending, execute_paper,
  count_execution, paper_booked, filled_at, give_up, prepare, send, execute,
}
use polyfast.Orders.Executor.Guards.{prepare_sent}

module _ {N : Type 0} ⦃f : Float N⦄ where
  -- The record of an order that was just sent.
  abbrev pub sent_record : String → ℕ → OrderIntent N → PositionRecord N
  sent_record pid now i =
      new_record pid now i.asset (side_value i.side) i.condition_id i.token_id i.amount_usd

  pub get-open_pending :
      (pid : String) (now : ℕ) (i : OrderIntent N) (d : Desk N)
      → get_position (open_pending pid now i d).tracker pid ≡ some (sent_record pid now i)
  unfolding open_pending create_pending persist
  get-open_pending pid now i d = get-put_self d.tracker.positions pid (sent_record pid now i)

  pub sent-is_pending :
      (pid : String) (now : ℕ) (i : OrderIntent N) → (sent_record pid now i).state ≡ pending_open
  unfolding new_record
  sent-is_pending pid now i = refl

  pub execute_sent :
      (c : Config N) (pid : String) (now : ℕ) (i : OrderIntent N) (reply : Reply N)
      (fetched : FetchReply N) (d : Desk N) (m : ExecutionMode)
      → c.mode ≡ m
      → (prepare c pid now i d).0 ≡ none
      → execute c pid now i reply fetched d
        ≡ send m c pid now i reply fetched (open_pending pid now i (count_execution d))
  unfolding execute
  execute_sent c pid now i reply fetched d m mode sent =
      subst
        (λ x.
          execute c pid now i reply fetched d
          ≡ send x c pid now i reply fetched (open_pending pid now i (count_execution d)))
        mode (rw (prepare_sent c pid now i d sent, execute) refl)

  execute_paper_filled :
      (c : Config N) (pid : String) (now : ℕ) (i : OrderIntent N) (d : Desk N)
      (r : PositionRecord N)
      → get_position d.tracker pid ≡ some r
      → r.state ≡ pending_open
      → f.eqf i.dominant_price f.zero_f ≡ false
      → execute_paper c pid now i d
        ≡ paper_booked c pid now i (record d {
          tracker =
              filled_tracker pid (filled_record i.dominant_price c.default_rate now r) d.tracker;
        })
  unfolding execute_paper
  execute_paper_filled c pid now i d r found pending nonzero = rw (
    confirm_fill-pending pid i.dominant_price c.default_rate now r d.tracker found pending nonzero,
    execute_paper,
  )

  execute_paper_zero :
      (c : Config N) (pid : String) (now : ℕ) (i : OrderIntent N) (d : Desk N)
      (r : PositionRecord N)
      → get_position d.tracker pid ≡ some r
      → f.eqf i.dominant_price f.zero_f ≡ true
      → execute_paper c pid now i d ≡ (err zero_division, d)
  unfolding execute_paper
  execute_paper_zero c pid now i d r found is_zero = rw (
    confirm_fill-zero pid i.dominant_price c.default_rate now r d.tracker found is_zero,
    execute_paper,
  )

  pub give_up_pending :
      (result : OrderResult) (pid : String) (now : ℕ) (d : Desk N) (r : PositionRecord N)
      → get_position d.tracker pid ≡ some r
      → r.state ≡ pending_open
      → (give_up result pid now d).1 ≡ record d {
        tracker = store_record pid (rejected_record now r) (lower_fills r.condition_id d.tracker);
      }
  unfolding give_up
  give_up_pending result pid now d r found pending =
      rw (reject_fill-pending pid now r d.tracker found pending, give_up)

  paper_effect :
      (c : Config N) (pid : String) (now : ℕ) (i : OrderIntent N) (d : Desk N)
      → let d₁ = open_pending pid now i (count_execution d) in
        let r = filled_record i.dominant_price c.default_rate now (sent_record pid now i) in
        let (outcome, d') =
          paper_booked c pid now i (record d₁ { tracker = filled_tracker pid r d₁.tracker }) in
        (outcome ≡ ok (filled_at pid i.dominant_price c.default_rate))
        × (get_position d'.tracker pid ≡ some r)
        × (r.state ≡ open_confirmed)
        × (d'.tracker.session_trade_count ≡ d.tracker.session_trade_count + 1)
        × (d'.balance.available ≡ max_zero (d.balance.available ⊖ i.amount_usd))
        × (d'.fill_count ≡ d.fill_count + 1)
  unfolding paper_booked filled_tracker persist store_record deduct open_pending create_pending
  paper_effect c pid now i d =
      let d₁ = open_pending pid now i (count_execution d) in
      let r = filled_record i.dominant_price c.default_rate now (sent_record pid now i) in
      (
        refl,
        get-put_self d₁.tracker.positions pid r,
        unfold filled_record in refl,
        refl,
        refl,
        refl,
      )

  -- A paper order that passes the guards, at a price other than 0, is filled at the intent's price
  -- and the default rate: its position is open with the fill's amounts, the session has one more
  -- trade, and the available balance falls by the amount, but not below 0.
  pub execute-paper :
      (c : Config N) (pid : String) (now : ℕ) (i : OrderIntent N) (reply : Reply N)
      (fetched : FetchReply N) (d : Desk N)
      → c.mode ≡ paper
      → (prepare c pid now i d).0 ≡ none
      → f.eqf i.dominant_price f.zero_f ≡ false
      → let (outcome, d') = execute c pid now i reply fetched d in
        let r = filled_record i.dominant_price c.default_rate now (sent_record pid now i) in
        (outcome ≡ ok (filled_at pid i.dominant_price c.default_rate))
        × (get_position d'.tracker pid ≡ some r)
        × (r.state ≡ open_confirmed)
        × (d'.tracker.session_trade_count ≡ d.tracker.session_trade_count + 1)
        × (d'.balance.available ≡ max_zero (d.balance.available ⊖ i.amount_usd))
        × (d'.fill_count ≡ d.fill_count + 1)
  execute-paper c pid now i reply fetched d mode sent nonzero =
      let d₁ = open_pending pid now i (count_execution d) in
      let r = sent_record pid now i in
      rw (execute_sent c pid now i reply fetched d paper mode sent) (
        unfold send in
        rw
          (execute_paper_filled c pid now i d₁ r (get-open_pending pid now i (count_execution d))
            (sent-is_pending pid now i) nonzero)
          (paper_effect c pid now i d))

  -- A paper order at a price of 0 passes the guards and then raises: its position stays pending,
  -- and the balance is as it was.
  pub execute-zero_price :
      (c : Config N) (pid : String) (now : ℕ) (i : OrderIntent N) (reply : Reply N)
      (fetched : FetchReply N) (d : Desk N)
      → c.mode ≡ paper
      → (prepare c pid now i d).0 ≡ none
      → f.eqf i.dominant_price f.zero_f ≡ true
      → let (outcome, d') = execute c pid now i reply fetched d in
        (outcome ≡ err zero_division)
        × (get_position d'.tracker pid ≡ some (sent_record pid now i))
        × (d'.balance ≡ d.balance)
  execute-zero_price c pid now i reply fetched d mode sent is_zero =
      let d₁ = open_pending pid now i (count_execution d) in
      let found = get-open_pending pid now i (count_execution d) in
      rw (execute_sent c pid now i reply fetched d paper mode sent) (
        unfold send in
        rw (execute_paper_zero c pid now i d₁ (sent_record pid now i) found is_zero)
          (refl, found, unfold open_pending in refl))
