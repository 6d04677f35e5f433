-- ===== src/Settlement/Pass/Settles.antt =====
-- A whole pass in paper mode, and the next one.
use polyfast.Base.{
  ◌+◌, String, Bool, true, false, ◌≡◌, none, [], refl, arith, if◌then◌else◌, eq_iff, ◌∙◌,
}
use polyfast.Base.Dict.{Dict, get}
use polyfast.Float.{Float}
use polyfast.Position.Record.{PositionRecord}
use polyfast.Claims.Manager.{get_claim, redeem_paper, create_claim}
use polyfast.Settlement.World.{World, check_resolved}
use polyfast.Settlement.Pass.{Settling, is_settled, settle_position, visit_closed}
use polyfast.Settlement.Pass.Claimed.{
  paid_out, settle_position-paper, is_settled-paid_out, get-paid_out,
}

module _ {N : Type 0} where
  -- The market of the position's event is resolved, or taken to be so.
  unfoldable pub is_resolved : World N → PositionRecord N → Bool
  is_resolved w p = (check_resolved w p.condition_id []).0

  pub check_resolved-cache :
      (w : World N) (p : PositionRecord N) (cache : Dict String)
      → (check_resolved w p.condition_id cache).0 ≡ is_resolved w p
  unfolding check_resolved is_resolved
  check_resolved-cache w p cache = ground arith

  pub unresolved-cache :
      (w : World N) (p : PositionRecord N) (cache : Dict String)
      → is_resolved w p ≡ false
      → check_resolved w p.condition_id cache ≡ (false, cache)
  unfolding check_resolved is_resolved
  unresolved-cache w p cache h = ground arith

  -- Paper mode, nothing waits for a retry, and the identifier of a claim to be made is not in use.
  pub record IsReady (w : World N) (s : Settling N) : Type 0 where
    pub paper : w.paper_mode ≡ true
    pub paper_claims : s.claims.paper_mode ≡ true
    pub no_retries : s.retries ≡ []
    pub unused :
        (pid : String)
        → is_settled s.claims pid ≡ false
        → get_claim s.claims (w.claim_ids pid) ≡ none

module _ {N : Type 0} ⦃f : Float N⦄ (w : World N) where
  pub visit_open :
      (p : PositionRecord N) (s : Settling N) (yes_ : Bool) (cache : Dict String)
      → s.retries ≡ []
      → is_settled s.claims p.position_id ≡ false
      → check_resolved w p.condition_id s.winner_cache ≡ (yes_, cache)
      → visit_closed w p s ≡ (
          if yes_
          then settle_position w p (record s { winner_cache = cache })
          else (false, record s { winner_cache = cache }))
  unfolding visit_closed get
  visit_open p s yes_ cache empty open_ asked = rw (empty, open_, asked, visit_closed) refl

  pub visit_settled :
      (p : PositionRecord N) (s : Settling N)
      → s.retries ≡ []
      → is_settled s.claims p.position_id ≡ true
      → visit_closed w p s ≡ (false, s)
  unfolding visit_closed get
  visit_settled p s empty done = rw (empty, done, visit_closed) refl

module _ {N : Type 0} ⦃f : Float N⦄ (w : World N)
    (distinct : (a b : String) → w.claim_ids a ≡ w.claim_ids b → a ≡ b) where
  -- What a turn or the loop leaves.
  pub record Progress (s s' : Settling N) : Type 0 where
    pub ready : IsReady w s'
    pub stays : (pid : String) → is_settled s.claims pid ≡ true → is_settled s'.claims pid ≡ true

  pub Progress-same : (s : Settling N) → IsReady w s → Progress s s
  Progress-same s ready = record { ready = ready; stays = λ pid h. h }

  -- The state after a position is paid.
  abbrev pub paid_state : PositionRecord N → Settling N → Settling N
  paid_state p s =
      let cache = (check_resolved w p.condition_id s.winner_cache).1 in
      record s {
        claims = paid_out w cache p s.claims;
        winner_cache = cache;
        settlement_count = s.settlement_count + 1;
      }

  pub visit_paid :
      (p : PositionRecord N) (s : Settling N)
      → IsReady w s
      → is_settled s.claims p.position_id ≡ false
      → is_resolved w p ≡ true
      → visit_closed w p s ≡ (true, paid_state p s)
  visit_paid p s ready open_ yes_ =
      let cache = (check_resolved w p.condition_id s.winner_cache).1 in
      let asked : check_resolved w p.condition_id s.winner_cache ≡ (true, cache) =
        ground (arith, check_resolved-cache w p s.winner_cache) in
      visit_open w p s true cache ready.no_retries open_ asked
      ∙ settle_position-paper w p (record s { winner_cache = cache }) ready.paper ready.paper_claims

  pub paid_state-Progress :
      (p : PositionRecord N) (s : Settling N)
      → IsReady w s
      → is_settled s.claims p.position_id ≡ false
      → Progress s (paid_state p s)
  paid_state-Progress p s ready open_ =
      let cache = (check_resolved w p.condition_id s.winner_cache).1 in
      let fresh = ready.unused p.position_id open_ in
      record {
        ready = record {
          paper = ready.paper;
          paper_claims = unfold paid_out redeem_paper create_claim in ready.paper_claims;
          no_retries = ready.no_retries;
          unused = λ pid h.
              let now = is_settled-paid_out w cache p s.claims pid fresh in
              get-paid_out w cache p s.claims (w.claim_ids pid)
                (ready.unused pid (ground (arith, now)))
                (λ e. ground (arith, now, eq_iff p.position_id pid, distinct p.position_id pid e));
        };
        stays = λ pid h. ground (arith, is_settled-paid_out w cache p s.claims pid fresh);
      }
