-- ===== src/Claims/Manager.antt =====
-- `ClaimManager` (backend/execution/claim_manager.py). A method takes the claims with the balance
-- that they pay into. `scheduled` lists the claims for which `_persist` created a save task.
pub mod Once
use polyfast.Base.{
  ℕ, ◌+◌, String, Bool, true, false, Option, none, some, List, [], ◌∷◌, if◌then◌else◌, str_eq,
}
use polyfast.Base.Dict.{Dict, get, put, values}
use polyfast.Base.Lists.{any, select, count_if}
use polyfast.Float.{Float}
use polyfast.Balance.{Balance, add_amount}
use polyfast.Claims.Record.{
  ClaimRecord, success, failed, redeemed_won, redeemed_lost, is_pending, is_success, new_claim,
}

pub record Claims (N : Type 0) : Type 0 where
  pub claims : Dict (ClaimRecord N)
  pub balance : Balance N
  pub claim_count : ℕ
  pub paper_mode : Bool
  pub store_set : Bool  -- `_store is not None`, with a running event loop
  pub scheduled : List String

module _ {N : Type 0} where
  -- The record that a method has mutated, without a save.
  abbrev pub put_claim : String → ClaimRecord N → Claims N → Claims N
  put_claim cid r s = record s { claims = put s.claims cid r }

  -- The record that a method has mutated, and `_persist`.
  abbrev pub save_claim : String → ClaimRecord N → Claims N → Claims N
  save_claim cid r s = record s {
    claims = put s.claims cid r;
    scheduled = if s.store_set then r.claim_id ∷ s.scheduled else s.scheduled;
  }

  unfoldable pub restore_claim : ClaimRecord N → Claims N → Claims N
  restore_claim r s = record s {
    claims = put s.claims r.claim_id r;
    claim_count = if is_success r then s.claim_count + 1 else s.claim_count;
  }

  abbrev pub get_claim : Claims N → String → Option (ClaimRecord N)
  get_claim s cid = get s.claims cid

  unfoldable pub has_pending_claims : Claims N → Bool
  has_pending_claims s = any is_pending (values s.claims)

  unfoldable pub pending_count : Claims N → ℕ
  pending_count s = count_if is_pending (values s.claims)

  unfoldable pub get_claims_by_position : Claims N → String → List (ClaimRecord N)
  get_claims_by_position s pid = select (λ r. str_eq r.position_id pid) (values s.claims)

  -- The record that was settled outside the bot.
  unfoldable pub settled_record : ℕ → ClaimRecord N → ClaimRecord N
  settled_record now r = record r {
    claim_status = success;
    outcome = redeemed_won;
    claimed_at = some now;
    last_error = "external_settlement_detected";
  }

  unfoldable pub mark_externally_settled : String → ℕ → Claims N → Bool × Claims N
  mark_externally_settled cid now s = elim (get_claim s cid) [
    | none ↦ (false, s)
    | some r ↦ if is_success r then (true, s) else (
      true,
      record (save_claim cid (settled_record now r) s) { claim_count = s.claim_count + 1 },
    )
  ]

module _ {N : Type 0} ⦃f : Float N⦄ where
  -- `claim_id` is the new `uuid.uuid4()`.
  unfoldable pub create_claim :
      String → ℕ → String → String → String → String → Claims N → ClaimRecord N × Claims N
  create_claim claim_id now condition_id position_id asset side s =
      let r = new_claim claim_id now condition_id position_id asset side in
      (r, save_claim claim_id r s)

  -- The record after a simulated redeem.
  unfoldable pub redeemed_record : Bool → N → ℕ → ClaimRecord N → ClaimRecord N
  redeemed_record won payout now r = record r {
    claim_status = success;
    outcome = if won then redeemed_won else redeemed_lost;
    claimed_amount_usdc = if won then payout else f.zero_f;
    claimed_at = some now;
    retry_count = r.retry_count + 1;
  }

  -- The simulated redeem; only a win is added to the balance.
  unfoldable pub redeem_paper : String → Bool → N → ℕ → ClaimRecord N → Claims N → Claims N
  redeem_paper cid won payout now r s =
      record (save_claim cid (redeemed_record won payout now r) s) {
        claim_count = s.claim_count + 1;
        balance = if won then add_amount payout now s.balance else s.balance;
      }

  -- The record after an attempt in live mode, which is not written yet and is not saved.
  unfoldable pub failed_record : ClaimRecord N → ClaimRecord N
  failed_record r = record r {
    claim_status = failed;
    last_error = "Relayer redeem not implemented";
    retry_count = r.retry_count + 1;
  }

  unfoldable pub redeem_record : String → Bool → N → ℕ → ClaimRecord N → Claims N → Bool × Claims N
  redeem_record cid won payout now r s =
      if is_success r
      then (true, s)
      else if s.paper_mode
      then (true, redeem_paper cid won payout now r s)
      else (false, put_claim cid (failed_record r) s)

  unfoldable pub execute_redeem : String → Bool → N → ℕ → Claims N → Bool × Claims N
  execute_redeem cid won payout now s = elim (get_claim s cid) [
    | none ↦ (false, s)
    | some r ↦ redeem_record cid won payout now r s
  ]

  -- `execute_claim`
  unfoldable pub execute_claim : String → ℕ → Claims N → Bool × Claims N
  execute_claim cid now s = execute_redeem cid true f.one_f now s
