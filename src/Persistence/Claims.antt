-- ===== src/Persistence/Claims.antt =====
-- `ClaimStore` (backend/persistence/claim_store.py).
use polyfast.Base.{ℕ, String, Bool, true, ◌≡◌, Option, some, List, refl, str_eq, arith, subst}
use polyfast.Claims.Record.{
  ClaimStatus, pending, success, failed, ClaimRecord, is_pending, is_status,
}
use polyfast.Persistence.Columns.{
  Texts, member_of, ◌>>=◌, claim_status_value, claim_statuses, outcome_value, outcomes, time_column,
  read_time, claim_status-found, outcome-found, read_time-column,
}
use polyfast.Persistence.Database.{Database, try_load, load_where}
use polyfast.Persistence.Stored.{IsSaved, load_where-IsSaved}

-- A row of `claims`.
pub record ClaimRow (N : Type 0) : Type 0 where
  pub claim_id : String
  pub condition_id : String
  pub position_id : String
  pub asset : String
  pub side : String
  pub claim_status : String
  pub outcome : String
  pub claimed_amount_usdc : N
  pub claimed_at : Option String
  pub retry_count : ℕ
  pub last_error : String
  pub created_at : String
  pub updated_at : String

abbrev pub claim_key : {N : Type 0} → ClaimRow N → String
claim_key r = r.claim_id

module _ {N : Type 0} (x : Texts) where
  unfoldable pub claim_row : ℕ → ClaimRecord N → ClaimRow N
  claim_row now c = record {
    claim_id = c.claim_id;
    condition_id = c.condition_id;
    position_id = c.position_id;
    asset = c.asset;
    side = c.side;
    claim_status = claim_status_value c.claim_status;
    outcome = outcome_value c.outcome;
    claimed_amount_usdc = c.claimed_amount_usdc;
    claimed_at = time_column x c.claimed_at;
    retry_count = c.retry_count;
    last_error = c.last_error;
    created_at = x.isoformat c.created_at;
    updated_at = x.isoformat now;
  }

  -- `_row_to_record`; `none` where it raises.
  unfoldable pub row_to_claim : ClaimRow N → Option (ClaimRecord N)
  row_to_claim r = do
    claim_status ← member_of claim_status_value claim_statuses r.claim_status
    outcome ← member_of outcome_value outcomes r.outcome
    claimed_at ← read_time x r.claimed_at
    created_at ← x.fromisoformat r.created_at
    some (record {
      claim_id = r.claim_id;
      condition_id = r.condition_id;
      position_id = r.position_id;
      asset = r.asset;
      side = r.side;
      claim_status = claim_status;
      outcome = outcome;
      claimed_amount_usdc = r.claimed_amount_usdc;
      claimed_at = claimed_at;
      retry_count = r.retry_count;
      last_error = r.last_error;
      created_at = created_at;
    })

  row_to_claim-row : (now : ℕ) (c : ClaimRecord N) → row_to_claim (claim_row now c) ≡ some c
  unfolding row_to_claim claim_row
  row_to_claim-row now c =
      rw
        (
          claim_status-found c.claim_status,
          outcome-found c.outcome,
          read_time-column x c.claimed_at,
          x.fromisoformat-isoformat c.created_at,
        )
        refl

  row_to_claim-key :
      (r : ClaimRow N) (c : ClaimRecord N) → row_to_claim r ≡ some c → c.claim_id ≡ claim_key r
  unfolding row_to_claim
  row_to_claim-key r c e = ground arith

abbrev pub all_claims : {N : Type 0} → ClaimRow N → Bool
all_claims r = true

-- `WHERE claim_status = 'pending'`
abbrev pub is_pending_row : {N : Type 0} → ClaimRow N → Bool
is_pending_row r = str_eq r.claim_status "pending"

pending_value : (s : ClaimStatus) → str_eq (claim_status_value s) "pending" ≡ is_status s pending
unfolding claim_status_value
pending_value pending = refl
pending_value success = refl
pending_value failed = refl

module _ {N T : Type 0} (x : Texts) (db : Database (ClaimRow N) T claim_key) where
  abbrev pub save : ℕ → ClaimRecord N → T → Bool × T
  save now c t = db.insert_or_replace (claim_row x now c) t

  abbrev pub load_all : T → List (ClaimRecord N)
  load_all t = load_where db (row_to_claim x) all_claims t

  abbrev pub load_pending : T → List (ClaimRecord N)
  load_pending t = load_where db (row_to_claim x) is_pending_row t

  -- Where a save went through and neither the load before nor the query after raises, `load_all`
  -- then gives the saved claim, field by field, and the others that it gave before.
  pub load_all-save_claim :
      (now : ℕ) (c : ClaimRecord N) (t t' : T) (before : List (ClaimRecord N))
      (rs : List (ClaimRow N))
      → save now c t ≡ (true, t')
      → try_load db (row_to_claim x) all_claims t ≡ some before
      → db.query all_claims t' ≡ some rs
      → IsSaved (λ q. q.claim_id) true c before (load_all t')
  load_all-save_claim now c t t' before rs saved loaded asked =
      load_where-IsSaved db (row_to_claim x) (λ q. q.claim_id) (row_to_claim-key x) c
        (claim_row x now c) (row_to_claim-row x now c) all_claims t t' saved before rs loaded asked

  is_pending-row : (now : ℕ) (c : ClaimRecord N) → is_pending_row (claim_row x now c) ≡ is_pending c
  unfolding claim_row
  is_pending-row now c = pending_value c.claim_status

  -- Where a save went through and neither the load before nor the query after raises, `load_pending`
  -- then gives the saved claim, field by field, if it is pending, and the others that it gave before.
  pub load_pending-save :
      (now : ℕ) (c : ClaimRecord N) (t t' : T) (before : List (ClaimRecord N))
      (rs : List (ClaimRow N))
      → save now c t ≡ (true, t')
      → try_load db (row_to_claim x) is_pending_row t ≡ some before
      → db.query is_pending_row t' ≡ some rs
      → IsSaved (λ q. q.claim_id) (is_pending c) c before (load_pending t')
  load_pending-save now c t t' before rs saved loaded asked =
      subst (λ b. IsSaved (λ q. q.claim_id) b c before (load_pending t')) (is_pending-row now c)
        (load_where-IsSaved db (row_to_claim x) (λ q. q.claim_id) (row_to_claim-key x) c
          (claim_row x now c) (row_to_claim-row x now c) is_pending_row t t' saved before rs loaded
          asked)
