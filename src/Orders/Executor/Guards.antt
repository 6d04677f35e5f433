-- ===== src/Orders/Executor/Guards.antt =====
-- The guards of `OrderExecutor.execute`.
use polyfast.Base.{
  ℕ, ◌+◌, ◌≤◌, String, false, ◌≡◌, ◌≢◌, ◌↔◌, none, some, ok, Result, eq_iff, eq_refl, arith,
}
use polyfast.Float.{Float}
use polyfast.Balance.{is_stale}
use polyfast.Position.Tracker.{Tracker, get_position, get_event_fill_count, create_pending}
use polyfast.Base.Dict.{values}
use polyfast.Base.Lists.{count_if}
use polyfast.Position.Tracker.{persist}
use polyfast.Position.Tracker.Discipline.{IsConsistent, counts_for}
use polyfast.Position.Tracker.Updates.{get_or_zero-increment}
use polyfast.Position.Tracker.Orders.{create-IsConsistent}
use polyfast.Orders.Intent.{OrderIntent, side_value}
use polyfast.Orders.Validator.{claim_pending, validate}
use polyfast.Orders.Validator.Checks.{IsSendable, validate-IsSendable}
use polyfast.Orders.Executor.{
  Config, Desk, OrderResult, order_rejected, limits, has_pending_open, check, count_refusal,
  open_pending, count_execution, prepare,
}

module _ {N : Type 0} ⦃f : Float N⦄ where
  -- No order is refused because a claim is pending: `execute` passes the validator no claim.
  pub prepare_ignores_claims :
      (c : Config N) (pid : String) (now : ℕ) (i : OrderIntent N) (d : Desk N)
      → (prepare c pid now i d).0 ≢ some (ok (order_rejected claim_pending))
  unfolding prepare check validate limits
  prepare_ignores_claims c pid now i d h = ground arith

  -- An order passes the guards of `execute` exactly when the balance is fresh, no order of its event is
  -- pending, and the validator's conditions hold of the balance and the counters as they are; its
  -- pending position is then made. No order is refused because a claim is pending, since `execute`
  -- passes the validator none. Whether an order that passes goes out in live mode, where orders may
  -- be disabled and the exchange's client may not be set, is not part of this.
  pub prepare-sends :
      (c : Config N) (pid : String) (now : ℕ) (i : OrderIntent N) (d : Desk N)
      → (((prepare c pid now i d).0 ≡ none) ↔ (
          (is_stale now d.balance ≡ false)
          × (has_pending_open i d ≡ false)
          × IsSendable i (limits c i d)))
        × ((prepare c pid now i d).0 ≡ none
            → (prepare c pid now i d).1 ≡ open_pending pid now i (count_execution d))
        × ((prepare c pid now i d).0 ≢ some (ok (order_rejected claim_pending)))
  unfolding prepare check
  prepare-sends c pid now i d = (
    (
      λ h. (ground arith, ground arith, (validate-IsSendable i (limits c i d)).0 (ground arith)),
      λ h. ground (arith, (validate-IsSendable i (limits c i d)).1 h.2),
    ),
    λ h. ground arith,
    prepare_ignores_claims c pid now i d,
  )

  -- What a sent order leaves: its pending position, and one more execution.
  pub prepare_sent :
      (c : Config N) (pid : String) (now : ℕ) (i : OrderIntent N) (d : Desk N)
      → (prepare c pid now i d).0 ≡ none
      → prepare c pid now i d ≡ (none, open_pending pid now i (count_execution d))
  unfolding prepare
  prepare_sent c pid now i d h = ground arith

  -- A refused order changes no position, no counter of the tracker and no balance, and it is
  -- counted as an execution.
  pub prepare_refused :
      (c : Config N) (pid : String) (now : ℕ) (i : OrderIntent N) (d : Desk N)
      {r : Result OrderResult}
      → (prepare c pid now i d).0 ≡ some r
      → let d' = (prepare c pid now i d).1 in
        (d'.tracker ≡ d.tracker)
        × (d'.balance ≡ d.balance)
        × (d'.execution_count ≡ d.execution_count + 1)
        × (d'.fill_count ≡ d.fill_count)
  unfolding prepare count_refusal
  prepare_refused c pid now i d h = ground arith

  fills_after_create :
      (pid : String) (now : ℕ) (asset side cid token : String) (amount : N) (t : Tracker N)
      → get_event_fill_count (create_pending pid now asset side cid token amount t).1 cid
        ≡ get_event_fill_count t cid + 1
  unfolding create_pending get_event_fill_count persist
  fills_after_create pid now asset side cid token amount t =
      ground (arith, get_or_zero-increment t.event_fills cid cid, eq_refl cid)

  -- Event Max: where the counters are exact and the identifier is new, an order that is sent leaves
  -- at most `event_max` positions of its event that were not rejected, its own among them.
  pub prepare-event_max :
      (c : Config N) (pid : String) (now : ℕ) (i : OrderIntent N) (d : Desk N)
      → IsConsistent d.tracker
      → get_position d.tracker pid ≡ none
      → (prepare c pid now i d).0 ≡ none
      → count_if (counts_for i.condition_id) (values (prepare c pid now i d).1.tracker.positions)
        ≤ i.event_max
  unfolding open_pending limits get_event_fill_count
  prepare-event_max c pid now i d exact fresh sent =
      let side = side_value i.side in
      let after =
        create-IsConsistent pid now i.asset side i.condition_id i.token_id i.amount_usd d.tracker
          fresh exact in
      let room = ((prepare-sends c pid now i d).0.0 sent).2.event_room in
      rw (prepare_sent c pid now i d sent) (
        omega (
          arith,
          room,
          after.fills_exact i.condition_id,
          fills_after_create pid now i.asset side i.condition_id i.token_id i.amount_usd d.tracker,
        ))

  -- Events other than the order's own keep their counter.
  pub prepare_others :
      (c : Config N) (pid : String) (now : ℕ) (i : OrderIntent N) (d : Desk N) (cid : String)
      → i.condition_id ≢ cid
      → get_event_fill_count (prepare c pid now i d).1.tracker cid
        ≡ get_event_fill_count d.tracker cid
  unfolding prepare open_pending count_refusal create_pending persist get_event_fill_count
  prepare_others c pid now i d cid other = ground (
    arith,
    get_or_zero-increment d.tracker.event_fills i.condition_id cid,
    eq_iff i.condition_id cid,
  )
