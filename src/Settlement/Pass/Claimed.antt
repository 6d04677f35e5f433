-- ===== src/Settlement/Pass/Claimed.antt =====
-- The claims of a simulated settlement (`_settle_position` in paper mode).
use polyfast.Base.{
  ℕ, ◌+◌, String, Bool, true, false, ◌≡◌, ◌≢◌, none, some, [], ◌∷◌, refl, arith, str_eq, eq_refl,
  ◌||◌, ◌&&◌, ◌∙◌,
}
use polyfast.Base.Dict.{Dict, get, put, values, get-put_self, get-put_ne}
use polyfast.Base.Lists.{any, select}
use polyfast.Float.{Float}
use polyfast.Position.Record.{PositionRecord}
use polyfast.Claims.Record.{ClaimRecord, is_success, new_claim}
use polyfast.Claims.Manager.{
  Claims, get_claim, create_claim, redeem_paper, redeemed_record, get_claims_by_position,
}
use polyfast.Claims.Manager.Once.{execute_redeem-paper}
use polyfast.Settlement.World.{World, determine_winner}
use polyfast.Settlement.Pass.{
  Settling, is_settled, payout_of, redeem_simulated, redeem_for_claim, settle_position,
}

put-put : {V : Type 0} (d : Dict V) (k : String) (v w : V) → put (put d k v) k w ≡ put d k w
unfolding put
put-put [] k v w = ground (arith, eq_refl k)
put-put ((j, u) ∷ d) k v w = ground (arith, put-put d k v w)

-- A new claim's part in a test over the claims of a position.
any-put :
    {N : Type 0} (pid : String) (d : Dict (ClaimRecord N)) (k : String) (r : ClaimRecord N)
    → get d k ≡ none
    → let mine : ClaimRecord N → Bool = λ q. str_eq q.position_id pid in
      any is_success (select mine (values (put d k r)))
      ≡ (any is_success (select mine (values d)) || (mine r && is_success r))
unfolding get put any select values
any-put pid [] k r missing = ground arith
any-put pid ((j, q) ∷ d) k r missing = ground (arith, any-put pid d k r (ground arith))

module _ {N : Type 0} ⦃f : Float N⦄ where
  -- The claims after the simulated settlement of a position.
  unfoldable pub paid_out : World N → Dict String → PositionRecord N → Claims N → Claims N
  paid_out w cache p c =
      let id = w.claim_ids p.position_id in
      let made = create_claim id w.now p.condition_id p.position_id p.asset p.side c in
      let won = determine_winner w cache p in
      redeem_paper id won (f.round (payout_of won p) 4) w.now made.0 made.1

  get-create_claim_self :
      (id : String) (now : ℕ) (cond pid asset side : String) (c : Claims N)
      → get_claim (create_claim id now cond pid asset side c).1 id
        ≡ some (new_claim id now cond pid asset side)
  unfolding create_claim
  get-create_claim_self id now cond pid asset side c = get-put_self c.claims id _

  redeem_for_claim-paper :
      (w : World N) (p : PositionRecord N) (claim : ClaimRecord N) (s : Settling N)
      → w.paper_mode ≡ true
      → redeem_for_claim w p claim s ≡ redeem_simulated w p claim.claim_id s
  unfolding redeem_for_claim
  redeem_for_claim-paper w p claim s paper = rw paper refl

  redeem_simulated-paper :
      (w : World N) (p : PositionRecord N) (id : String) (s : Settling N) (r : ClaimRecord N)
      → get_claim s.claims id ≡ some r
      → is_success r ≡ false
      → s.claims.paper_mode ≡ true
      → let won = determine_winner w s.winner_cache p in
        redeem_simulated w p id s ≡ (
          true,
          record s {
            claims = redeem_paper id won (f.round (payout_of won p) 4) w.now r s.claims;
            settlement_count = s.settlement_count + 1;
          },
        )
  unfolding redeem_simulated
  redeem_simulated-paper w p id s r found fresh paper =
      rw
        (
          execute_redeem-paper id (determine_winner w s.winner_cache p)
              (f.round (payout_of (determine_winner w s.winner_cache p) p) 4) w.now s.claims r found
              fresh paper,
          redeem_simulated,
        )
        refl

  -- In paper mode a settlement succeeds.
  pub settle_position-paper :
      (w : World N) (p : PositionRecord N) (s : Settling N)
      → w.paper_mode ≡ true
      → s.claims.paper_mode ≡ true
      → settle_position w p s ≡ (
        true,
        record s {
          claims = paid_out w s.winner_cache p s.claims;
          settlement_count = s.settlement_count + 1;
        },
      )
  unfolding settle_position paid_out create_claim new_claim
  settle_position-paper w p s paper paper' =
      let id = w.claim_ids p.position_id in
      let made = create_claim id w.now p.condition_id p.position_id p.asset p.side s.claims in
      let s₁ = record s { claims = made.1 } in
      rw
        (
          redeem_for_claim-paper w p made.0 s₁ paper,
          redeem_simulated-paper w p id s₁ made.0
              (get-create_claim_self id w.now p.condition_id p.position_id p.asset p.side s.claims)
              (unfold create_claim new_claim in refl) (unfold create_claim in paper'),
          settle_position,
        )
        refl

  paid_out-claims :
      (w : World N) (cache : Dict String) (p : PositionRecord N) (c : Claims N)
      → let id = w.claim_ids p.position_id in
        let won = determine_winner w cache p in
        let made : ClaimRecord N = new_claim id w.now p.condition_id p.position_id p.asset p.side in
        (paid_out w cache p c).claims
        ≡ put c.claims id (redeemed_record won (f.round (payout_of won p) 4) w.now made)
  unfolding paid_out redeem_paper create_claim
  paid_out-claims w cache p c = put-put c.claims (w.claim_ids p.position_id) _ _

  -- Under an unused identifier the position is settled, and no other position becomes so.
  pub is_settled-paid_out :
      (w : World N) (cache : Dict String) (p : PositionRecord N) (c : Claims N) (pid : String)
      → get_claim c (w.claim_ids p.position_id) ≡ none
      → is_settled (paid_out w cache p c) pid ≡ (is_settled c pid || str_eq p.position_id pid)
  unfolding is_settled get_claims_by_position
  is_settled-paid_out w cache p c pid fresh =
      let won = determine_winner w cache p in
      let made : ClaimRecord N =
        new_claim (w.claim_ids p.position_id) w.now p.condition_id p.position_id p.asset p.side in
      let paid : ClaimRecord N = redeemed_record won (f.round (payout_of won p) 4) w.now made in
      rw (paid_out-claims w cache p c) (
        any-put pid c.claims (w.claim_ids p.position_id) paid fresh
        ∙ (unfold redeemed_record new_claim in ground arith))

  pub get-paid_out :
      (w : World N) (cache : Dict String) (p : PositionRecord N) (c : Claims N) (k : String)
      → get_claim c k ≡ none
      → w.claim_ids p.position_id ≢ k
      → get_claim (paid_out w cache p c) k ≡ none
  get-paid_out w cache p c k missing other =
      rw (paid_out-claims w cache p c)
        (get-put_ne c.claims (w.claim_ids p.position_id) k _ other ∙ missing)
