-- ===== src/Settlement/Pass/Restart.antt =====
-- What `process_settlements` does after a retry state is exhausted.
use polyfast.Base.{String, true, false, ◌≡◌, ◌≢◌, none, [], ◌∷◌, refl, arith, ◌∙◌}
use polyfast.Base.Dict.{Dict, put, values, get-put_self}
use polyfast.Base.Lists.{select}
use polyfast.Float.{Float}
use polyfast.Position.Record.{PositionRecord}
use polyfast.Claims.Record.{ClaimRecord, new_claim}
use polyfast.Claims.Manager.{Claims, get_claim, put_claim, create_claim}
use polyfast.Settlement.Retry.{RetryState, schedule_next, new_retry}
use polyfast.Settlement.World.{World, check_resolved, not_redeemed, resolved}
use polyfast.Settlement.Pass.{
  Settling, is_redeemable, is_settled, redeem_for_claim, redeem_relayed, settle_position,
  visit_closed, settle_all, visit_retry, retry_all, process_retries, process_settlements,
}
use polyfast.Settlement.Pass.Settles.{visit_open}

module _ {N : Type 0} ⦃f : Float N⦄ (w : World N) where
  retry_one :
      (positions : Dict (PositionRecord N)) (pid : String) (e : RetryState) (s : Settling N)
      → e.exhausted ≡ true
      → retry_all w positions ((pid, e) ∷ []) s ≡ (0, [], s)
  unfolding retry_all visit_retry
  retry_one positions pid e s spent = rw (spent, visit_retry) refl

  process_retries-spent :
      (positions : Dict (PositionRecord N)) (pid : String) (e : RetryState) (s : Settling N)
      → s.retries ≡ (pid, e) ∷ []
      → e.exhausted ≡ true
      → process_retries w positions s ≡ (0, record s { retries = [] })
  unfolding process_retries
  process_retries-spent positions pid e s one spent =
      rw (one, process_retries)
        (rw (retry_one positions pid e (record s { retries = (pid, e) ∷ [] }) spent) refl)

  redeem-fails :
      (p : PositionRecord N) (claim : ClaimRecord N) (error : String) (s : Settling N)
      → w.paper_mode ≡ false
      → w.relayer p.position_id ≡ not_redeemed error
      → redeem_for_claim w p claim s ≡ (
        false,
        record s {
          claims = put_claim claim.claim_id (record claim { last_error = error }) s.claims;
        },
      )
  unfolding redeem_for_claim redeem_relayed
  redeem-fails p claim error s live fails = rw (live, fails, redeem_relayed) refl

  -- The claims after a first attempt that failed.
  abbrev pub failed_claims : PositionRecord N → String → Claims N → Claims N
  failed_claims p error c =
      let id = w.claim_ids p.position_id in
      let made = create_claim id w.now p.condition_id p.position_id p.asset p.side c in
      put_claim (made.0.claim_id) (record (made.0) { last_error = error }) (made.1)

  settle_position-fails :
      (p : PositionRecord N) (error : String) (s : Settling N)
      → w.paper_mode ≡ false
      → w.relayer p.position_id ≡ not_redeemed error
      → let pid = p.position_id in
        settle_position w p s ≡ (
          false,
          record s {
            claims = failed_claims p error s.claims;
            retries = put s.retries pid (schedule_next w.now (new_retry pid (w.claim_ids pid)));
          },
        )
  unfolding settle_position
  settle_position-fails p error s live fails =
      let id = w.claim_ids p.position_id in
      let made = create_claim id w.now p.condition_id p.position_id p.asset p.side s.claims in
      rw (redeem-fails p made.0 error (record s { claims = made.1 }) live fails, settle_position)
        refl

  get-failed_claims :
      (p : PositionRecord N) (error : String) (c : Claims N)
      → get_claim (failed_claims p error c) (w.claim_ids p.position_id) ≢ none
  unfolding create_claim new_claim
  get-failed_claims p error c h =
      let id = w.claim_ids p.position_id in
      let made : ClaimRecord N = new_claim id w.now p.condition_id p.position_id p.asset p.side in
      ground (arith, get-put_self (put c.claims id made) id (record made { last_error = error }))

  resolved-cache :
      (cid side : String) (cache : Dict String)
      → w.market cid ≡ resolved side
      → check_resolved w cid cache ≡ (true, put cache cid side)
  unfolding check_resolved
  resolved-cache cid side cache won = rw (won, check_resolved) refl

  visit_fails :
      (p : PositionRecord N) (side error : String) (s : Settling N)
      → let pid = p.position_id in
        w.paper_mode ≡ false
        → s.retries ≡ []
        → is_settled s.claims pid ≡ false
        → w.market p.condition_id ≡ resolved side
        → w.relayer pid ≡ not_redeemed error
        → visit_closed w p s ≡ (
          false,
          record s {
            claims = failed_claims p error s.claims;
            winner_cache = put s.winner_cache p.condition_id side;
            retries = put s.retries pid (schedule_next w.now (new_retry pid (w.claim_ids pid)));
          },
        )
  visit_fails p side error s live empty open_ won fails =
      let cache = put s.winner_cache p.condition_id side in
      visit_open w p s true cache empty open_
        (resolved-cache p.condition_id side s.winner_cache won)
      ∙ settle_position-fails p error (record s { winner_cache = cache }) live fails

  settle_one :
      (p : PositionRecord N) (s s' : Settling N)
      → is_redeemable p ≡ true
      → visit_closed w p s ≡ (false, s')
      → settle_all w (select is_redeemable (values ((p.position_id, p) ∷ []))) s ≡ (0, s')
  unfolding settle_all select values
  settle_one p s s' due turn = rw due (rw (turn, settle_all) refl)

  -- The limit of 20 attempts does not end the attempts. Where the one retry is exhausted, its
  -- position is not settled, its event is resolved and the relayer fails again, the pass makes a
  -- new claim for the position and starts again at the first attempt.
  pub process_settlements-restarts :
      (p : PositionRecord N) (e : RetryState) (side error : String) (s : Settling N)
      → let pid = p.position_id in
        w.paper_mode ≡ false
        → s.retries ≡ (pid, e) ∷ []
        → e.exhausted ≡ true
        → is_redeemable p ≡ true
        → is_settled s.claims pid ≡ false
        → w.market p.condition_id ≡ resolved side
        → w.relayer pid ≡ not_redeemed error
        → let done = process_settlements w ((pid, p) ∷ []) s in
          (done.0 ≡ 0)
          × (get_claim done.1.claims (w.claim_ids pid) ≢ none)
          × (done.1.retries ≡ (pid, schedule_next w.now (new_retry pid (w.claim_ids pid))) ∷ [])
  unfolding process_settlements
  process_settlements-restarts p e side error s live one spent due open_ won fails =
      let pid = p.position_id in
      let s₀ = record s { retries = [] } in
      let turn = visit_fails p side error s₀ live refl open_ won fails in
      let spent_ = process_retries-spent ((pid, p) ∷ []) pid e s one spent in
      rw (spent_, process_settlements)
        (rw (settle_one p s₀ _ due turn)
          (refl, get-failed_claims p error s.claims, unfold put in refl))
