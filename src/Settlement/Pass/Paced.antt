-- ===== src/Settlement/Pass/Paced.antt =====
-- The counts of the retry states under `process_settlements`.
use polyfast.Base.{
  ℕ, ◌<◌, String, Bool, true, false, ◌≡◌, List, [], ◌∷◌, refl, arith, inl, inr, Bool-cases,
  Option-cases, str_eq, is_some,
}
use polyfast.Base.Dict.{Dict, get, put, values}
use polyfast.Base.Lists.{select}
use polyfast.Float.{Float}
use polyfast.Position.Record.{PositionRecord}
use polyfast.Claims.Record.{ClaimRecord}
use polyfast.Claims.Manager.{create_claim}
use polyfast.Settlement.Retry.{RetryState, schedule_next, new_retry}
use polyfast.Settlement.World.{World, check_resolved, redeemed, not_redeemed}
use polyfast.Settlement.Pass.{
  Settling, is_redeemable, is_settled, redeem_for_claim, redeem_relayed, settle_position,
  after_attempt, settle_resolved, visit_closed, settle_all, retry_settle, visit_retry, retry_all,
  process_retries, process_settlements, redeem_simulated,
}

-- A retry that is not exhausted was tried at least once and fewer than 20 times.
abbrev pub IsPaced : RetryState → Type 0
IsPaced e = (0 < e.attempt_count) × (e.exhausted ≡ false → e.attempt_count < 20)

-- Each entry of the retries is paced.
pub data AllPaced : Dict RetryState → Type 0 where
  none_paced : AllPaced []
  more_paced :
      {pid : String} {e : RetryState} {es : Dict RetryState}
      → IsPaced e
      → AllPaced es
      → AllPaced ((pid, e) ∷ es)

schedule_next-IsPaced :
    (now : ℕ) (e : RetryState) → e.exhausted ≡ false → IsPaced (schedule_next now e)
unfolding schedule_next
schedule_next-IsPaced now e h = ground arith

put-AllPaced :
    (es : Dict RetryState) (pid : String) (e : RetryState)
    → IsPaced e
    → AllPaced es
    → AllPaced (put es pid e)
unfolding put
put-AllPaced [] pid e h all = more_paced h none_paced
put-AllPaced ((j, q) ∷ es) pid e h (more_paced k all) = elim (Bool-cases (str_eq j pid)) [
  | inl same ↦ rw same (more_paced h all)
  | inr other ↦ rw other (more_paced k (put-AllPaced es pid e h all))
]

module _ {N : Type 0} ⦃f : Float N⦄ (w : World N) where
  -- A redeem leaves the retries alone.
  redeem-retries :
      (p : PositionRecord N) (claim : ClaimRecord N) (s : Settling N)
      → (redeem_for_claim w p claim s).1.retries ≡ s.retries
  unfolding redeem_for_claim redeem_simulated redeem_relayed
  redeem-retries p claim s = elim (w.relayer p.position_id) [
    | redeemed payout ↦ ground arith
    | not_redeemed error ↦ ground arith
  ]

  retry_settle-IsPaced :
      (p : PositionRecord N) (e : RetryState) (s : Settling N)
      → e.exhausted ≡ false
      → IsPaced e
      → IsPaced (retry_settle w p e s).entry
  unfolding retry_settle
  retry_settle-IsPaced p e s live h = ground (arith, schedule_next-IsPaced w.now e)

  visit_retry-IsPaced :
      (positions : Dict (PositionRecord N)) (pid : String) (e : RetryState) (s : Settling N)
      → IsPaced e
      → IsPaced (visit_retry w positions pid e s).entry
  unfolding visit_retry
  visit_retry-IsPaced positions pid e s h = elim (Option-cases (get positions pid)) [
    | inl missing ↦ rw (missing, visit_retry) (ground arith)
    | inr (p, found) ↦ rw (found, visit_retry) (ground (arith, retry_settle-IsPaced p e s))
  ]

  retry_all-AllPaced :
      (positions : Dict (PositionRecord N)) (es : Dict RetryState) (s : Settling N)
      → AllPaced es
      → AllPaced (retry_all w positions es s).1
  unfolding retry_all
  retry_all-AllPaced positions [] s all = none_paced
  retry_all-AllPaced positions ((pid, e) ∷ es) s (more_paced h all) =
      let t = visit_retry w positions pid e s in
      let rest = retry_all-AllPaced positions es t.after all in
      elim (Bool-cases t.dropped) [
        | inl gone ↦ rw gone rest
        | inr kept ↦ rw kept (more_paced (visit_retry-IsPaced positions pid e s h) rest)
      ]

  after_attempt-AllPaced :
      (p : PositionRecord N) (id : String) (done : Bool × Settling N)
      → AllPaced done.1.retries
      → AllPaced (after_attempt w p id done).1.retries
  unfolding after_attempt
  after_attempt-AllPaced p id (true, s) all = all
  after_attempt-AllPaced p id (false, s) all =
      put-AllPaced s.retries p.position_id _
        (schedule_next-IsPaced w.now (new_retry p.position_id id) refl) all

  settle_position-AllPaced :
      (p : PositionRecord N) (s : Settling N)
      → AllPaced s.retries
      → AllPaced (settle_position w p s).1.retries
  unfolding settle_position
  settle_position-AllPaced p s all =
      let id = w.claim_ids p.position_id in
      let made = create_claim id w.now p.condition_id p.position_id p.asset p.side s.claims in
      let s₁ = record s { claims = made.1 } in
      after_attempt-AllPaced p id (redeem_for_claim w p made.0 s₁)
        (rw (redeem-retries p made.0 s₁) all)

  settle_resolved-AllPaced :
      (p : PositionRecord N) (s : Settling N) (asked : Bool × Dict String)
      → AllPaced s.retries
      → AllPaced (settle_resolved w p s asked).1.retries
  unfolding settle_resolved
  settle_resolved-AllPaced p s (true, cache) all =
      settle_position-AllPaced p (record s { winner_cache = cache }) all
  settle_resolved-AllPaced p s (false, cache) all = all

  visit_closed-AllPaced :
      (p : PositionRecord N) (s : Settling N)
      → AllPaced s.retries
      → AllPaced (visit_closed w p s).1.retries
  unfolding visit_closed
  visit_closed-AllPaced p s all = elim (Bool-cases (is_some (get s.retries p.position_id))) [
    | inl waits ↦ rw (waits, visit_closed) all
    | inr free ↦ elim (Bool-cases (is_settled s.claims p.position_id)) [
      | inl done ↦ rw (free, done, visit_closed) all
      | inr open_ ↦
          rw (free, open_, visit_closed)
            (settle_resolved-AllPaced p s (check_resolved w p.condition_id s.winner_cache) all)
    ]
  ]

  settle_all-AllPaced :
      (ps : List (PositionRecord N)) (s : Settling N)
      → AllPaced s.retries
      → AllPaced (settle_all w ps s).1.retries
  unfolding settle_all
  settle_all-AllPaced [] s all = all
  settle_all-AllPaced (p ∷ ps) s all =
      settle_all-AllPaced ps (visit_closed w p s).1 (visit_closed-AllPaced p s all)

  -- A pass keeps every waiting retry at 1 to 19 attempts; one that comes to 20 is exhausted.
  pub process_settlements-AllPaced :
      (positions : Dict (PositionRecord N)) (s : Settling N)
      → AllPaced s.retries
      → AllPaced (process_settlements w positions s).1.retries
  unfolding process_settlements process_retries
  process_settlements-AllPaced positions s all =
      settle_all-AllPaced (select is_redeemable (values positions))
        (process_retries w positions s).1 (retry_all-AllPaced positions s.retries s all)
