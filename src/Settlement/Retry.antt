-- ===== src/Settlement/Retry.antt =====
-- `SettlementRetryState` (backend/orchestrator/settlement.py) with the constants of the schedule
-- (backend/execution/claim_manager.py).
use polyfast.Base.{ℕ, zero, suc, ◌+◌, String, Bool, true, false, List, [], ◌∷◌, if◌then◌else◌, leb}

pub record RetryState : Type 0 where
  pub position_id : String
  pub claim_id : String
  pub attempt_count : ℕ
  pub next_retry_at : ℕ
  pub exhausted : Bool

-- `CLAIM_REDEEM_RETRY_SCHEDULE`, `CLAIM_REDEEM_RETRY_STEADY`, `CLAIM_REDEEM_MAX_RETRIES`
abbrev pub retry_schedule : List ℕ
retry_schedule = 5 ∷ 10 ∷ []

abbrev pub retry_steady : ℕ
retry_steady = 20

abbrev pub max_retries : ℕ
max_retries = 20

-- `SCHEDULE[idx]` below its length, else the steady delay.
unfoldable pub delay_at : List ℕ → ℕ → ℕ
delay_at [] n = retry_steady
delay_at (d ∷ ds) zero = d
delay_at (d ∷ ds) (suc n) = delay_at ds n

unfoldable pub get_retry_delay : RetryState → ℕ
get_retry_delay s = elim s.attempt_count [ zero ↦ 0 | suc n ↦ delay_at retry_schedule n ]

-- A state that is exhausted keeps the time of its last retry.
unfoldable pub schedule_next : ℕ → RetryState → RetryState
schedule_next now s =
    let counted = record s { attempt_count = s.attempt_count + 1 } in
    if leb max_retries counted.attempt_count
    then record counted { exhausted = true }
    else record counted { next_retry_at = now + get_retry_delay counted }

unfoldable pub is_ready : ℕ → RetryState → Bool
is_ready now s = if s.exhausted then false else leb s.next_retry_at now

-- `SettlementRetryState(position_id=…, claim_id=…)`
abbrev pub new_retry : String → String → RetryState
new_retry position_id claim_id = record {
  position_id = position_id;
  claim_id = claim_id;
  attempt_count = 0;
  next_retry_at = 0;
  exhausted = false;
}
