-- ===== src/Settlement/Pass.antt =====
-- `SettlementOrchestrator` (backend/orchestrator/settlement.py): one pass over the retries and the
-- closed positions. The tracker is only read: `positions` are its records.
pub mod Claimed
pub mod Settles
pub mod Complete
pub mod Paced
pub mod Restart
use polyfast.Base.{
  ℕ, zero, ◌+◌, String, Bool, true, false, not, ◌&&◌, Option, none, some, List, [], ◌∷◌,
  if◌then◌else◌, is_some, count_when,
}
use polyfast.Base.Dict.{Dict, get, put, values}
use polyfast.Base.Lists.{any, select}
use polyfast.Float.{Float, ◌⊗◌, ◌<?◌}
use polyfast.Position.Record.{PositionRecord, is_closed, needs_redeem}
use polyfast.Claims.Record.{ClaimRecord, is_success}
use polyfast.Claims.Manager.{
  Claims, get_claim, put_claim, create_claim, execute_redeem, get_claims_by_position,
}
use polyfast.Settlement.Retry.{RetryState, schedule_next, is_ready, new_retry}
use polyfast.Settlement.World.{
  World, RelayerReply, redeemed, not_redeemed, check_resolved, determine_winner,
}

pub record Settling (N : Type 0) : Type 0 where
  pub claims : Claims N
  pub retries : Dict RetryState  -- by position_id
  pub winner_cache : Dict String
  pub settlement_count : ℕ

module _ {N : Type 0} where
  -- `p.is_closed and p.closed_at is not None and p.needs_redeem`
  unfoldable pub is_redeemable : PositionRecord N → Bool
  is_redeemable p = is_closed p && is_some p.closed_at && needs_redeem p

  -- `_is_settled`
  unfoldable pub is_settled : Claims N → String → Bool
  is_settled c pid = any is_success (get_claims_by_position c pid)

module _ {N : Type 0} ⦃f : Float N⦄ where
  -- `pos.net_position_shares * 1.0 if won else 0.0`
  unfoldable pub payout_of : Bool → PositionRecord N → N
  payout_of won p = if won then p.net_position_shares ⊗ f.one_f else f.zero_f

  -- The simulated redeem of a claim.
  unfoldable pub redeem_simulated :
      World N → PositionRecord N → String → Settling N → Bool × Settling N
  redeem_simulated w p claim_id s =
      let won = determine_winner w s.winner_cache p in
      let done = execute_redeem claim_id won (f.round (payout_of won p) 4) w.now s.claims in
      (
        done.0,
        record s { claims = done.1; settlement_count = count_when done.0 s.settlement_count },
      )

  -- The redeem through the relayer; the result of `execute_redeem` is not looked at.
  unfoldable pub redeem_relayed :
      World N → RelayerReply N → ClaimRecord N → Settling N → Bool × Settling N
  redeem_relayed w (redeemed payout) claim s = (
    true,
    record s {
      claims = (execute_redeem claim.claim_id (f.zero_f <? payout) payout w.now s.claims).1;
      settlement_count = s.settlement_count + 1;
    },
  )
  redeem_relayed w (not_redeemed error) claim s = (
    false,
    record s { claims = put_claim claim.claim_id (record claim { last_error = error }) s.claims },
  )

  -- `_execute_redeem_for_claim`
  unfoldable pub redeem_for_claim :
      World N → PositionRecord N → ClaimRecord N → Settling N → Bool × Settling N
  redeem_for_claim w p claim s =
      if w.paper_mode
      then redeem_simulated w p claim.claim_id s
      else redeem_relayed w (w.relayer p.position_id) claim s

  -- The first attempt's failure leaves a retry state.
  after_attempt : World N → PositionRecord N → String → Bool × Settling N → Bool × Settling N
  after_attempt w p claim_id (true, s) = (true, s)
  after_attempt w p claim_id (false, s) = (
    false,
    record s {
      retries =
          put s.retries p.position_id (schedule_next w.now (new_retry p.position_id claim_id));
    },
  )

  -- `_settle_position`
  unfoldable pub settle_position : World N → PositionRecord N → Settling N → Bool × Settling N
  unfolding after_attempt
  settle_position w p s =
      let claim_id = w.claim_ids p.position_id in
      let made = create_claim claim_id w.now p.condition_id p.position_id p.asset p.side s.claims in
      after_attempt w p claim_id (redeem_for_claim w p made.0 (record s { claims = made.1 }))

  -- The market is asked, and a resolved position is settled.
  settle_resolved : World N → PositionRecord N → Settling N → Bool × Dict String → Bool × Settling N
  settle_resolved w p s (resolved, cache) =
      if resolved
      then settle_position w p (record s { winner_cache = cache })
      else (false, record s { winner_cache = cache })

  -- One turn of the loop over the closed positions: whether it settled, and the state.
  unfoldable pub visit_closed : World N → PositionRecord N → Settling N → Bool × Settling N
  unfolding settle_resolved
  visit_closed w p s =
      if is_some (get s.retries p.position_id)
      then (false, s)
      else if is_settled s.claims p.position_id
      then (false, s)
      else settle_resolved w p s (check_resolved w p.condition_id s.winner_cache)

  unfoldable pub settle_all : World N → List (PositionRecord N) → Settling N → ℕ × Settling N
  settle_all w [] s = (0, s)
  settle_all w (p ∷ ps) s =
      let first = visit_closed w p s in
      let rest = settle_all w ps first.1 in (count_when first.0 rest.0, rest.1)

-- What one turn over a retry does: whether it settled, whether the entry is dropped, the entry, and
-- the state.
pub record Retried (N : Type 0) : Type 0 where
  pub settled : Bool
  pub dropped : Bool
  pub entry : RetryState
  pub after : Settling N

module _ {N : Type 0} ⦃f : Float N⦄ where
  abbrev pub keep_entry : RetryState → Settling N → Retried N
  keep_entry e s = record { settled = false; dropped = false; entry = e; after = s }

  abbrev pub drop_entry : Bool → RetryState → Settling N → Retried N
  drop_entry settled e s = record { settled = settled; dropped = true; entry = e; after = s }

  after_retry : World N → RetryState → Bool × Settling N → Retried N
  after_retry w e (true, s) = drop_entry true e s
  after_retry w e (false, s) = keep_entry (schedule_next w.now e) s

  -- `_retry_settle`
  unfoldable pub retry_settle : World N → PositionRecord N → RetryState → Settling N → Retried N
  unfolding after_retry
  retry_settle w p e s = elim (get_claim s.claims e.claim_id) [
    | none ↦ keep_entry (record e { exhausted = true }) s
    | some claim ↦
        if is_success claim
        then drop_entry true e s
        else after_retry w e (redeem_for_claim w p claim s)
  ]

  -- One turn of `_process_retries`.
  unfoldable pub visit_retry :
      World N → Dict (PositionRecord N) → String → RetryState → Settling N → Retried N
  visit_retry w positions pid e s =
      if e.exhausted
      then drop_entry false e s
      else if not (is_ready w.now e)
      then keep_entry e s
      else (elim (get positions pid) [
        | none ↦ drop_entry false e s
        | some p ↦ retry_settle w p e s
      ])

  -- The loop, with the entries that stay.
  unfoldable pub retry_all :
      World N
      → Dict (PositionRecord N)
      → Dict RetryState
      → Settling N
      → ℕ × Dict RetryState × Settling N
  retry_all w positions [] s = (0, [], s)
  retry_all w positions ((pid, e) ∷ es) s =
      let t = visit_retry w positions pid e s in
      let rest = retry_all w positions es t.after in
      (count_when t.settled rest.0, if t.dropped then rest.1 else (pid, t.entry) ∷ rest.1, rest.2)

  -- `_process_retries`
  unfoldable pub process_retries : World N → Dict (PositionRecord N) → Settling N → ℕ × Settling N
  process_retries w positions s =
      let done = retry_all w positions s.retries s in (done.0, record (done.2) { retries = done.1 })

  -- `process_settlements`
  unfoldable pub process_settlements :
      World N → Dict (PositionRecord N) → Settling N → ℕ × Settling N
  process_settlements w positions s =
      let first = process_retries w positions s in
      let second = settle_all w (select is_redeemable (values positions)) first.1 in
      (first.0 + second.0, second.1)
