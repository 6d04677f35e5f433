-- ===== src/Orders/Executor/Unfilled.antt =====
-- What a live order with no fill leaves behind.
use polyfast.Base.{
  ℕ, String, Bool, false, not, ◌&&◌, if◌then◌else◌, ok, ◌≡◌, refl, none, some, eq_refl, arith,
}
use polyfast.Base.Dict.{get-put_self}
use polyfast.Float.{Float}
use polyfast.Balance.{FetchReply}
use polyfast.Position.Tracker.{
  get_position, get_event_fill_count, increment, create_pending, new_record, persist, store_record,
  lower_fills,
}
use polyfast.Position.Tracker.Updates.{get_or_zero-increment, get_or_zero-lower}
use polyfast.Position.Tracker.Behaviour.{rejected_record, reject_fill-pending}
use polyfast.Position.State.{pending_open}
use polyfast.Position.Record.{PositionRecord}
use polyfast.Orders.Intent.{OrderIntent}
use polyfast.Orders.Executor.{
  Config, Desk, OrderResult, Reply, network_error, no_reply, failed, matched, unfilled_at,
  not_filled, live, unmatched, open_pending, count_execution, give_up, finish_live, execute_live,
  prepare, send, execute,
}
use polyfast.Orders.Executor.Paper.{sent_record, get-open_pending, sent-is_pending, execute_sent}

module _ {N : Type 0} ⦃f : Float N⦄ where
  -- A rejection takes the counter back to where it was before the order.
  fills_taken_back :
      (pid : String) (now : ℕ) (i : OrderIntent N) (d : Desk N) (cid : String)
      → get_event_fill_count
          (lower_fills i.condition_id (open_pending pid now i (count_execution d)).tracker)
          cid
        ≡ get_event_fill_count d.tracker cid
  unfolding open_pending create_pending persist get_event_fill_count lower_fills
  fills_taken_back pid now i d cid =
      let fs = increment d.tracker.event_fills i.condition_id in
      ground (
        arith,
        get_or_zero-increment d.tracker.event_fills i.condition_id cid,
        get_or_zero-increment d.tracker.event_fills i.condition_id i.condition_id,
        get_or_zero-lower fs i.condition_id cid,
        eq_refl i.condition_id,
      )

  rejected_effect :
      (pid : String) (now : ℕ) (i : OrderIntent N) (d : Desk N)
      → let d₁ = open_pending pid now i (count_execution d) in
        let r = sent_record pid now i in
        let t = store_record pid (rejected_record now r) (lower_fills i.condition_id d₁.tracker) in
        (get_position t pid ≡ some (rejected_record now r))
        × (d₁.balance ≡ d.balance)
        × (d₁.fill_count ≡ d.fill_count)
        × ((cid : String) → get_event_fill_count t cid ≡ get_event_fill_count d.tracker cid)
  unfolding store_record open_pending get_event_fill_count
  rejected_effect pid now i d =
      let d₁ = open_pending pid now i (count_execution d) in
      (
        get-put_self (lower_fills i.condition_id d₁.tracker).positions pid
            (rejected_record now (sent_record pid now i)),
        refl,
        refl,
        λ cid. fills_taken_back pid now i d cid,
      )

  -- The order goes out and the reply is a fill.
  abbrev pub fills : Config N → Reply N → Bool
  fills c (matched rate making taking) = c.live_order_enabled && c.wrapper_set
  fills c _ = false

  -- What an order without a fill ends with: orders are disabled, or the exchange did not match the order,
  -- or the call failed.
  abbrev pub unfilled_result : Config N → Reply N → OrderResult
  unfilled_result c unmatched =
      if not c.live_order_enabled
      then not_filled
      else if c.wrapper_set
      then not_filled
      else network_error
  unfilled_result c _ = if not c.live_order_enabled then not_filled else network_error

  execute_live-unfilled :
      (c : Config N) (pid : String) (now : ℕ) (i : OrderIntent N) (reply : Reply N)
      (fetched : FetchReply N) (d : Desk N)
      → fills c reply ≡ false
      → execute_live c pid now i reply fetched d ≡ give_up (unfilled_result c reply) pid now d
  unfolding execute_live finish_live
  execute_live-unfilled c pid now i no_reply fetched d h = ground arith
  execute_live-unfilled c pid now i unmatched fetched d h = ground arith
  execute_live-unfilled c pid now i failed fetched d h = ground arith
  execute_live-unfilled c pid now i (matched rate making taking) fetched d h = ground arith

  give_up_rejects :
      (result : OrderResult) (pid : String) (now : ℕ) (d : Desk N) (r : PositionRecord N)
      → get_position d.tracker pid ≡ some r
      → r.state ≡ pending_open
      → give_up result pid now d ≡ (
        ok (unfilled_at pid result),
        record d {
          tracker = store_record pid (rejected_record now r) (lower_fills r.condition_id d.tracker);
        },
      )
  unfolding give_up
  give_up_rejects result pid now d r found pending =
      rw (reject_fill-pending pid now r d.tracker found pending, give_up) refl

  -- A live order that passes the guards and comes back without a fill, since orders are disabled, the
  -- wrapper is not set, or the reply is none, unmatched or a failure, ends with its result and without
  -- an exception. It leaves its position closed and never opened, every event's counter as it was
  -- before the order, and the balance and the count of fills untouched.
  pub execute-unfilled :
      (c : Config N) (pid : String) (now : ℕ) (i : OrderIntent N) (reply : Reply N)
      (fetched : FetchReply N) (d : Desk N)
      → c.mode ≡ live
      → fills c reply ≡ false
      → (prepare c pid now i d).0 ≡ none
      → let (outcome, d') = execute c pid now i reply fetched d in
        (outcome ≡ ok (unfilled_at pid (unfilled_result c reply)))
        × (get_position d'.tracker pid ≡ some (rejected_record now (sent_record pid now i)))
        × (d'.balance ≡ d.balance)
        × (d'.fill_count ≡ d.fill_count)
        × ((cid : String)
            → get_event_fill_count d'.tracker cid ≡ get_event_fill_count d.tracker cid)
  unfolding new_record
  execute-unfilled c pid now i reply fetched d mode unfilled sent =
      let d₁ = open_pending pid now i (count_execution d) in
      let r = sent_record pid now i in
      let found = get-open_pending pid now i (count_execution d) in
      let result = unfilled_result c reply in
      let left = rejected_effect pid now i d in
      rw (execute_sent c pid now i reply fetched d live mode sent) (
        unfold send in
        rw
          (
            execute_live-unfilled c pid now i reply fetched d₁ unfilled,
            give_up_rejects result pid now d₁ r found (sent-is_pending pid now i),
          )
          (refl, left.0, left.1, left.2, left.3))
