-- ===== src/Claims/Record.antt =====
-- `ClaimStatus`, `ClaimOutcome` and `ClaimRecord` (backend/execution/claim_manager.py).
use polyfast.Base.{ℕ, String, Bool, true, false, Option, none}
use polyfast.Float.{Float}

-- `ClaimStatus`
pub data ClaimStatus : Type 0 where
  pending success failed : ClaimStatus

-- `ClaimOutcome`
pub data ClaimOutcome : Type 0 where
  redeemed_won redeemed_lost unredeemed redeem_failed : ClaimOutcome

abbrev pub is_status : ClaimStatus → ClaimStatus → Bool
is_status pending pending = true
is_status success success = true
is_status failed failed = true
is_status _ _ = false

pub record ClaimRecord (N : Type 0) : Type 0 where
  pub claim_id : String
  pub condition_id : String
  pub position_id : String
  pub asset : String
  pub side : String
  pub claim_status : ClaimStatus
  pub outcome : ClaimOutcome
  pub claimed_amount_usdc : N
  pub claimed_at : Option ℕ
  pub retry_count : ℕ
  pub last_error : String
  pub created_at : ℕ

module _ {N : Type 0} where
  abbrev pub is_pending : ClaimRecord N → Bool
  is_pending r = is_status r.claim_status pending

  abbrev pub is_success : ClaimRecord N → Bool
  is_success r = is_status r.claim_status success

-- The record that `create_claim` makes.
unfoldable pub new_claim :
    {N : Type 0} ⦃f : Float N⦄ → String → ℕ → String → String → String → String → ClaimRecord N
new_claim ⦃f⦄ claim_id now condition_id position_id asset side = record {
  claim_id = claim_id;
  condition_id = condition_id;
  position_id = position_id;
  asset = asset;
  side = side;
  claim_status = pending;
  outcome = unredeemed;
  claimed_amount_usdc = f.zero_f;
  claimed_at = none;
  retry_count = 0;
  last_error = "";
  created_at = now;
}
