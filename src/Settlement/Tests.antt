-- ===== src/Settlement/Tests.antt =====
-- Settlement passes on sample positions.
use polyfast.Base.{
  str_eq, if◌then◌else◌, String, Bool, true, false, ◌≡◌, ◌≢◌, none, some, [], ◌∷◌, refl, arith,
}
use polyfast.Base.Int.{ℤ, pos}
use polyfast.Base.Dict.{Dict, get, values}
use polyfast.Base.Lists.{any, select}
use polyfast.Float.Fixed.{fixed}
use polyfast.Position.State.{closed, expiry}
use polyfast.Position.Record.{PositionRecord, needs_redeem, was_sold}
use polyfast.Position.Samples.{open_five}
use polyfast.Position.Tracker.{new_record}
use polyfast.Claims.Manager.{Claims, get_claim, get_claims_by_position}
use polyfast.Settlement.Retry.{RetryState, schedule_next, new_retry}
use polyfast.Settlement.World.{World, resolved, unresolved, not_redeemed, check_resolved}
use polyfast.Settlement.Pass.{Settling, is_redeemable, is_settled, process_settlements}
use polyfast.Settlement.Pass.Settles.{IsReady, is_resolved}
use polyfast.Settlement.Pass.Complete.{process_settlements-settles}
use polyfast.Settlement.Pass.Paced.{AllPaced, none_paced, more_paced, process_settlements-AllPaced}
use polyfast.Settlement.Pass.Restart.{process_settlements-restarts}

-- The position was held to the end of its event.
abbrev held : PositionRecord ℤ
held = record open_five { state = closed; close_reason = some expiry; closed_at = some 300 }

abbrev positions : Dict (PositionRecord ℤ)
positions = ("p1", held) ∷ []

-- Every event is resolved for "UP", and the relayer fails.
abbrev world : Bool → World ℤ
world paper = record {
  now = 310;
  paper_mode = paper;
  claim_ids = λ pid. pid;
  market = λ cid. resolved "UP";
  relayer = λ pid. not_redeemed "relayer disabled";
  ptb_value = λ cid. none;
  coin_usd = λ asset. pos 0;
}

abbrev no_claims : Claims ℤ
no_claims = record {
  claims = [];
  balance = record {
    available = pos 1500;
    total = pos 2000;
    updated_at = some 100;
    stale_threshold = 90;
    fetch_count = 1;
  };
  claim_count = 0;
  paper_mode = true;
  store_set = true;
  scheduled = [];
}

abbrev start : Settling ℤ
start = record { claims = no_claims; retries = []; winner_cache = []; settlement_count = 0 }

start-IsReady : IsReady (world true) start
unfolding get
start-IsReady = record {
  paper = refl;
  paper_claims = refl;
  no_retries = refl;
  unused = λ pid h. refl;
}

-- A minute later the exchange answers for one market only.
abbrev half_resolved : World ℤ
half_resolved = record (world true) {
  now = 370;
  market = λ cid. if str_eq cid "c1" then resolved "DOWN" else unresolved;
}

all_resolved : (p : PositionRecord ℤ) → is_resolved (world true) p ≢ false
unfolding is_resolved check_resolved get
all_resolved p h = ground arith

process_settlements-settles_example :
    let s' = (process_settlements (world true) positions start).1 in
    ((pid : String) (p : PositionRecord ℤ)
      → get positions pid ≡ some p
      → is_redeemable p ≡ true
      → is_resolved (world true) p ≡ true
      → is_settled s'.claims p.position_id ≡ true)
    × ((pid : String) → is_settled start.claims pid ≡ true → is_settled s'.claims pid ≡ true)
    × (process_settlements half_resolved positions s' ≡ (0, s'))
process_settlements-settles_example =
    process_settlements-settles (world true) (λ a b e. e) positions start half_resolved
      start-IsReady (λ p h. absurd (all_resolved p h))

-- The retry of `held`, after its last attempt.
abbrev spent : RetryState
spent = record {
  position_id = "p1";
  claim_id = "old";
  attempt_count = 20;
  next_retry_at = 700;
  exhausted = true;
}

abbrev waiting_state : Settling ℤ
waiting_state = record start { retries = ("p1", spent) ∷ [] }

spent-AllPaced : AllPaced waiting_state.retries
spent-AllPaced = more_paced (ground arith, λ h. ground arith) none_paced

process_settlements-AllPaced_example :
    AllPaced (process_settlements (world false) positions waiting_state).1.retries
process_settlements-AllPaced_example =
    process_settlements-AllPaced (world false) positions waiting_state spent-AllPaced

held-is_redeemable : is_redeemable held ≡ true
unfolding is_redeemable needs_redeem was_sold
held-is_redeemable = refl

held-open : is_settled no_claims "p1" ≡ false
unfolding is_settled get_claims_by_position any select values
held-open = refl

process_settlements-restarts_example :
    let done = process_settlements (world false) (("p1", held) ∷ []) waiting_state in
    (done.0 ≡ 0)
    × (get_claim done.1.claims "p1" ≢ none)
    × (done.1.retries ≡ ("p1", schedule_next 310 (new_retry "p1" "p1")) ∷ [])
unfolding new_record
process_settlements-restarts_example =
    process_settlements-restarts (world false) held spent "UP" "relayer disabled" waiting_state refl
      refl refl held-is_redeemable held-open refl refl
