-- ===== src/Orchestrator/ExitCycle/Triggers.antt =====
-- What the loop over the open positions asks for.
use polyfast.Base.{
  ℕ, String, true, not, ◌≡◌, ◌≢◌, Option, none, some, str_eq, refl, ap, ◌∙◌, arith, if-cases,
}
use polyfast.Base.Dict.{Dict, get, get-put_self, get-put_ne}
use polyfast.Base.Lists.{any}
use polyfast.Float.{Float, ◌≤?◌}
use polyfast.Position.State.{open_confirmed}
use polyfast.Position.Record.{PositionRecord, is_open}
use polyfast.Position.Tracker.{get_position, store_record, persist}
use polyfast.Position.Tracker.Requests.{requested_record, request_close-open, persist-positions}
use polyfast.Exit.Evaluator.{ExitConfig, ExitSignal, evaluate, previous_price, has_no_shares}
use polyfast.Orchestrator.ExitCycle.{
  Inputs, Exits, Exit, with_tracker, exit_of, price_exit_of, after_request, request_exit,
  visit_open, price_in,
}

module _ {N : Type 0} ⦃f : Float N⦄ where
  -- The record after its turn.
  unfoldable pub exited : ℕ → Option Exit → PositionRecord N → PositionRecord N
  exited now none p = p
  exited now (some exit) p = requested_record exit.0 exit.1 f.zero_f now p

  open-state : (p : PositionRecord N) → is_open p ≡ true → p.state ≡ open_confirmed
  open-state p h = ground arith

  module _ (c : ExitConfig N) (i : Inputs N) (p : PositionRecord N) where
    -- The last prices of the other positions stay.
    evaluate-others :
        (last : Dict N) (price : N) (j : String)
        → p.position_id ≢ j
        → get (evaluate c last p price).1 j ≡ get last j
    unfolding evaluate
    evaluate-others last price j other =
        if-cases {A = ExitSignal N × Dict N} (λ d. get d.1 j ≡ get last j) (not (is_open p)) _ _
          (λ h. refl)
          (λ h.
            if-cases {A = ExitSignal N × Dict N} (λ d. get d.1 j ≡ get last j) (has_no_shares p) _ _
              (λ h. refl) (λ h. get-put_ne last p.position_id j price other))

    exit_of-others :
        (last : Dict N) (j : String) → p.position_id ≢ j → get (exit_of c i p last).1 j ≡ get last j
    unfolding exit_of price_exit_of
    exit_of-others last j other =
        if-cases {A = Option Exit × Dict N} (λ d. get d.1 j ≡ get last j) (price_in i p ≤? f.zero_f)
          _ _ (λ h. refl)
          (λ h.
            if-cases {A = Option Exit × Dict N} (λ d. get d.1 j ≡ get last j)
              (any (λ a. str_eq a p.asset) i.stale_assets) _ _ (λ h. refl)
              (λ h. evaluate-others last (price_in i p) j other))

    -- What is asked for depends on the position's own last price alone.
    evaluate-own :
        (l l' : Dict N) (price : N)
        → get l p.position_id ≡ get l' p.position_id
        → (evaluate c l p price).0 ≡ (evaluate c l' p price).0
    unfolding evaluate
    evaluate-own l l' price same =
        let before : previous_price l p.position_id price ≡ previous_price l' p.position_id price =
          unfold previous_price in (ap (λ o. elim o [ none ↦ price | some q ↦ q ]) same) in
        ground (arith, before)

    pub exit_of-own :
        (l l' : Dict N)
        → get l p.position_id ≡ get l' p.position_id
        → (exit_of c i p l).0 ≡ (exit_of c i p l').0
    unfolding exit_of price_exit_of
    exit_of-own l l' same = ground (arith, evaluate-own l l' (price_in i p) same)

  -- One turn goes through, leaves the record as `exited`, and touches nothing of the other positions.
  pub record IsTurn (c : ExitConfig N) (i : Inputs N) (now : ℕ) (p : PositionRecord N) (s : Exits N)
      : Type 0 where
    pub calm : (visit_open c i now p s).raised ≡ none
    pub here :
        get (visit_open c i now p s).after.seller.tracker.positions p.position_id
        ≡ some (exited now (exit_of c i p s.last_prices).0 p)
    pub others :
        (j : String)
        → p.position_id ≢ j
        → get (visit_open c i now p s).after.seller.tracker.positions j
          ≡ get s.seller.tracker.positions j
    pub last_others :
        (j : String)
        → p.position_id ≢ j
        → get (visit_open c i now p s).after.last_prices j ≡ get s.last_prices j

  -- The turn, once it is known what it asks for.
  record IsGranted (now : ℕ) (p : PositionRecord N) (s : Exits N) (o : Option Exit) : Type 0 where
    calm : (request_exit now p s o).raised ≡ none
    here :
        get (request_exit now p s o).after.seller.tracker.positions p.position_id
        ≡ some (exited now o p)
    others :
        (j : String)
        → p.position_id ≢ j
        → get (request_exit now p s o).after.seller.tracker.positions j
          ≡ get s.seller.tracker.positions j
    last : (request_exit now p s o).after.last_prices ≡ s.last_prices

  request_exit-some :
      (now : ℕ) (p : PositionRecord N) (s : Exits N) (exit : Exit)
      → get_position s.seller.tracker p.position_id ≡ some p
      → is_open p ≡ true
      → let r = requested_record exit.0 exit.1 f.zero_f now p in
        request_exit now p s (some exit) ≡ record {
          raised = none;
          triggered = true;
          after =
              with_tracker
                (persist p.position_id (store_record p.position_id r s.seller.tracker))
                s;
        }
  unfolding request_exit after_request
  request_exit-some now p s exit found open_ =
      rw
        (
          request_close-open p.position_id exit.0 exit.1 f.zero_f now p s.seller.tracker found
              (open-state p open_),
          after_request,
        )
        refl

  request_exit-IsGranted :
      (now : ℕ) (p : PositionRecord N) (s : Exits N) (o : Option Exit)
      → get_position s.seller.tracker p.position_id ≡ some p
      → is_open p ≡ true
      → IsGranted now p s o
  unfolding request_exit exited
  request_exit-IsGranted now p s none found open_ = record {
    calm = refl;
    here = found;
    others = λ j h. refl;
    last = refl;
  }
  request_exit-IsGranted now p s (some exit) found open_ =
      let r = requested_record exit.0 exit.1 f.zero_f now p in
      let t = s.seller.tracker in
      let asked = request_exit-some now p s exit found open_ in
      let wrote =
        ap (λ v. v.after.seller.tracker.positions) asked
        ∙ persist-positions p.position_id p.position_id r t in
      record {
        calm = ap (λ v. v.raised) asked;
        here = ap (λ d. get d p.position_id) wrote ∙ get-put_self t.positions p.position_id r;
        others = λ j h. ap (λ d. get d j) wrote ∙ get-put_ne t.positions p.position_id j r h;
        last = ap (λ v. v.after.last_prices) asked;
      }

  pub visit_open-IsTurn :
      (c : ExitConfig N) (i : Inputs N) (now : ℕ) (p : PositionRecord N) (s : Exits N)
      → get_position s.seller.tracker p.position_id ≡ some p
      → is_open p ≡ true
      → IsTurn c i now p s
  unfolding visit_open
  visit_open-IsTurn c i now p s found open_ =
      let (exit, last) = exit_of c i p s.last_prices in
      let done = request_exit-IsGranted now p (record s { last_prices = last }) exit found open_ in
      record {
        calm = done.calm;
        here = done.here;
        others = done.others;
        last_others = λ j h. ap (λ d. get d j) done.last ∙ exit_of-others c i p s.last_prices j h;
      }
