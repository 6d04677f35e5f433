-- ===== src/Settlement/Pass/Complete.antt =====
-- A whole pass of `process_settlements` in paper mode, and the next one.
use polyfast.Base.{
  String, true, false, ◌≡◌, ◌⊎◌, some, List, [], ◌∷◌, refl, arith, inl, inr, Bool-cases, ◌∙◌, subst,
  sym, eq_refl,
}
use polyfast.Base.Dict.{Dict, get, values, get-IsIn}
use polyfast.Base.Lists.{select, IsIn, in_head, in_tail, IsIn-select}
use polyfast.Float.{Float}
use polyfast.Position.Record.{PositionRecord}
use polyfast.Settlement.World.{World, check_resolved}
use polyfast.Settlement.Pass.{
  Settling, is_redeemable, is_settled, visit_closed, settle_all, process_retries,
  process_settlements, retry_all,
}
use polyfast.Settlement.Pass.Claimed.{is_settled-paid_out}
use polyfast.Settlement.Pass.Settles.{
  IsReady, Progress, is_resolved, unresolved-cache, visit_open, visit_settled, visit_paid,
  paid_state-Progress, Progress-same,
}

module _ {N : Type 0} ⦃f : Float N⦄ (w : World N) where
  -- The position has been paid, or its market gives no answer yet.
  abbrev IsDone : Settling N → PositionRecord N → Type 0
  IsDone s p = (is_settled s.claims p.position_id ≡ true) ⊎ (is_resolved w p ≡ false)

  -- A position that is done is passed over.
  visit_done :
      (p : PositionRecord N) (s : Settling N)
      → s.retries ≡ []
      → IsDone s p
      → visit_closed w p s ≡ (false, s)
  visit_done p s empty (inl done) = visit_settled w p s empty done
  visit_done p s empty (inr closed_) = elim (Bool-cases (is_settled s.claims p.position_id)) [
    | inl done ↦ visit_settled w p s empty done
    | inr open_ ↦
        visit_open w p s false s.winner_cache empty open_
          (unresolved-cache w p s.winner_cache closed_)
  ]

  settle_all-idle :
      (ps : List (PositionRecord N)) (s : Settling N)
      → s.retries ≡ []
      → ((p : PositionRecord N) → IsIn p ps → IsDone s p)
      → settle_all w ps s ≡ (0, s)
  unfolding settle_all
  settle_all-idle [] s empty done = refl
  settle_all-idle (p ∷ ps) s empty done =
      rw
        (
          visit_done p s empty (done p (in_head refl)),
          settle_all-idle ps s empty (λ q i. done q (in_tail i)),
        )
        refl

  no_retry :
      (positions : Dict (PositionRecord N)) (s : Settling N)
      → s.retries ≡ []
      → process_retries w positions s ≡ (0, s)
  unfolding process_retries retry_all
  no_retry positions s empty = rw (empty, process_retries) refl

  process_settlements-ready :
      (positions : Dict (PositionRecord N)) (s : Settling N)
      → s.retries ≡ []
      → process_settlements w positions s ≡ settle_all w (select is_redeemable (values positions)) s
  unfolding process_settlements
  process_settlements-ready positions s empty =
      rw (no_retry positions s empty, process_settlements) (ground arith)

module _ {N : Type 0} ⦃f : Float N⦄ (w : World N)
    (distinct : (a b : String) → w.claim_ids a ≡ w.claim_ids b → a ≡ b) where
  -- One turn: it makes progress, and the position is done.
  visit-Progress :
      (p : PositionRecord N) (s : Settling N)
      → IsReady w s
      → let s' = (visit_closed w p s).1 in Progress w distinct s s' × IsDone w s' p
  visit-Progress p s ready = elim (Bool-cases (is_settled s.claims p.position_id)) [
    | inl done ↦
        rw (visit_done w p s ready.no_retries (inl done))
          (Progress-same w distinct s ready, inl done)
    | inr open_ ↦ elim (Bool-cases (is_resolved w p)) [
      | inl yes_ ↦ rw (visit_paid w distinct p s ready open_ yes_) (
        paid_state-Progress w distinct p s ready open_,
        inl (
            ground (
              arith,
              is_settled-paid_out w (check_resolved w p.condition_id s.winner_cache).1 p s.claims
                  p.position_id (ready.unused p.position_id open_),
              eq_refl p.position_id,
            )),
      )
      | inr no_ ↦
          rw (visit_done w p s ready.no_retries (inr no_))
            (Progress-same w distinct s ready, inr no_)
    ]
  ]

  IsDone-stays :
      (p : PositionRecord N) (s s' : Settling N)
      → Progress w distinct s s'
      → IsDone w s p
      → IsDone w s' p
  IsDone-stays p s s' moved (inl done) = inl (moved.stays p.position_id done)
  IsDone-stays p s s' moved (inr no_) = inr no_

  still-IsDone :
      (p : PositionRecord N) (s : Settling N) (later : World N)
      → ((q : PositionRecord N) → is_resolved w q ≡ false → is_resolved later q ≡ false)
      → IsDone w s p
      → IsDone later s p
  still-IsDone p s later no_news (inl done) = inl done
  still-IsDone p s later no_news (inr closed_) = inr (no_news p closed_)

  settle_all-Progress :
      (ps : List (PositionRecord N)) (s : Settling N)
      → IsReady w s
      → Progress w distinct s (settle_all w ps s).1
  unfolding settle_all
  settle_all-Progress [] s ready = Progress-same w distinct s ready
  settle_all-Progress (p ∷ ps) s ready =
      let first = (visit-Progress p s ready).0 in
      let rest = settle_all-Progress ps (visit_closed w p s).1 first.ready in
      record { ready = rest.ready; stays = λ pid h. rest.stays pid (first.stays pid h) }

  settle_all-IsDone :
      (ps : List (PositionRecord N)) (s : Settling N) (p : PositionRecord N)
      → IsReady w s
      → IsIn p ps
      → IsDone w (settle_all w ps s).1 p
  unfolding settle_all
  settle_all-IsDone [] s p ready i = elim i [ ]
  settle_all-IsDone (q ∷ ps) s p ready (in_head e) =
      let first = visit-Progress q s ready in
      IsDone-stays p (visit_closed w q s).1 (settle_all w ps (visit_closed w q s).1).1
        (settle_all-Progress ps (visit_closed w q s).1 first.0.ready)
        (subst (λ r. IsDone w (visit_closed w q s).1 r) (sym e) first.1)
  settle_all-IsDone (q ∷ ps) s p ready (in_tail i) =
      settle_all-IsDone ps (visit_closed w q s).1 p (visit-Progress q s ready).0.ready i

  -- In paper mode, with nothing waiting for a retry and identifiers for new claims that are unused and
  -- differ from position to position, one pass settles every redeemable position of a resolved
  -- event, and keeps what was settled before. A later pass over the same positions, at another time
  -- and with other replies of the exchange, settles none and changes nothing as long as no market
  -- is resolved for it that was not resolved at this pass.
  pub process_settlements-settles :
      (positions : Dict (PositionRecord N)) (s : Settling N) (later : World N)
      → IsReady w s
      → ((p : PositionRecord N) → is_resolved w p ≡ false → is_resolved later p ≡ false)
      → let s' = (process_settlements w positions s).1 in
        ((pid : String) (p : PositionRecord N)
          → get positions pid ≡ some p
          → is_redeemable p ≡ true
          → is_resolved w p ≡ true
          → is_settled s'.claims p.position_id ≡ true)
        × ((pid : String) → is_settled s.claims pid ≡ true → is_settled s'.claims pid ≡ true)
        × (process_settlements later positions s' ≡ (0, s'))
  process_settlements-settles positions s later ready no_news =
      let ps = select is_redeemable (values positions) in
      let moved = settle_all-Progress ps s ready in
      rw (process_settlements-ready w positions s ready.no_retries) (
        λ pid p found due yes_.
            let i =
              IsIn-select is_redeemable p (values positions) (get-IsIn positions pid p found) due in
            ground (arith, settle_all-IsDone ps s p ready i),
        moved.stays,
        process_settlements-ready later positions (settle_all w ps s).1 moved.ready.no_retries
            ∙ settle_all-idle later ps (settle_all w ps s).1 moved.ready.no_retries (λ p i.
              still-IsDone p (settle_all w ps s).1 later no_news
                (settle_all-IsDone ps s p ready i)),
      )
