-- ===== src/Orchestrator/ExitCycle/Loop.antt =====
-- The loop over the open positions as a whole.
use polyfast.Base.{
  ℕ, String, true, ◌≡◌, ◌≢◌, Option, none, some, List, [], ◌∷◌, refl, sym, ap, ◌∙◌, subst,
  count_when, Error,
}
use polyfast.Base.Lists.{IsIn, in_head, in_tail}
use polyfast.Float.{Float}
use polyfast.Position.Record.{PositionRecord, is_open}
use polyfast.Position.Tracker.{get_position}
use polyfast.Exit.Evaluator.{ExitConfig}
use polyfast.Orchestrator.Restore.Found.{AreDistinct, more_distinct}
use polyfast.Orchestrator.ExitCycle.{Inputs, Exits, exit_of, visit_open, trigger_exits}
use polyfast.Orchestrator.ExitCycle.Triggers.{exited, visit_open-IsTurn, exit_of-own}

-- Every position of the list is the tracker's, and is open.
unfoldable pub AreOpen : {N : Type 0} → List (PositionRecord N) → Exits N → Type 0
AreOpen {N} ps s =
    (p : PositionRecord N)
    → IsIn p ps
    → (get_position s.seller.tracker p.position_id ≡ some p) × (is_open p ≡ true)

module _ {N : Type 0} ⦃f : Float N⦄ (c : ExitConfig N) (i : Inputs N) (now : ℕ) where
  -- What the loop leaves.
  pub record IsTriggered (ps : List (PositionRecord N)) (s s' : Exits N) : Type 0 where
    pub asked :
        (p : PositionRecord N)
        → IsIn p ps
        → get_position s'.seller.tracker p.position_id
          ≡ some (exited now (exit_of c i p s.last_prices).0 p)
    pub others :
        (j : String)
        → ((p : PositionRecord N) → IsIn p ps → p.position_id ≢ j)
        → get_position s'.seller.tracker j ≡ get_position s.seller.tracker j

  trigger_exits-turn :
      (p : PositionRecord N) (ps : List (PositionRecord N)) (s s' : Exits N) (n : ℕ)
      → let v = visit_open c i now p s in
        v.raised ≡ none
        → trigger_exits c i now ps v.after ≡ (none, n, s')
        → trigger_exits c i now (p ∷ ps) s ≡ (none, count_when v.triggered n, s')
  unfolding trigger_exits
  trigger_exits-turn p ps s s' n calm rest =
      let v = visit_open c i now p s in
      rw (calm, trigger_exits)
        (ap (λ (d : Option Error × ℕ × Exits N). (d.0, count_when v.triggered d.1, d.2)) rest)

  -- Over open positions of different identifiers the loop raises nothing, and it leaves each of them as
  -- its own evaluation asks, on the prices of this cycle and its last price before the cycle: asked to
  -- close for the reason and with the triggers that the evaluation gives, or as it was. Other records
  -- stay.
  pub trigger_exits-IsTriggered :
      (ps : List (PositionRecord N)) (s : Exits N)
      → AreDistinct ps
      → AreOpen ps s
      → (n : ℕ) × (s' : Exits N) × (trigger_exits c i now ps s ≡ (none, n, s'))
        × IsTriggered ps s s'
  unfolding trigger_exits AreOpen
  trigger_exits-IsTriggered [] s d open_ =
      (0, s, refl, record { asked = λ p j. elim j [ ]; others = λ j h. refl })
  trigger_exits-IsTriggered (p ∷ ps) s (more_distinct fresh d) open_ =
      let mine = open_ p (in_head refl) in
      let v = visit_open c i now p s in
      let visit = visit_open-IsTurn c i now p s mine.0 mine.1 in
      let apart = λ (q : PositionRecord N) (j : IsIn q ps) (h : p.position_id ≡ q.position_id).
        fresh q j (sym h) in
      let (n, s', run, rest) = trigger_exits-IsTriggered ps v.after d (λ q j.
        let theirs = open_ q (in_tail j) in
        (visit.others q.position_id (apart q j) ∙ theirs.0, theirs.1)) in
      (
        count_when v.triggered n,
        s',
        trigger_exits-turn p ps s s' n visit.calm run,
        record {
          asked = λ q j. elim j [
            | in_head same ↦
                subst
                  (λ r.
                    get_position s'.seller.tracker r.position_id
                    ≡ some (exited now (exit_of c i r s.last_prices).0 r))
                  (sym same) (rest.others p.position_id fresh ∙ visit.here)
            | in_tail k ↦
                rest.asked q k
                ∙ ap (λ e. some (exited now e q))
                    (exit_of-own c i q v.after.last_prices s.last_prices
                      (visit.last_others q.position_id (apart q k)))
          ];
          others =
              λ j h. rest.others j (λ q k. h q (in_tail k)) ∙ visit.others j (h p (in_head refl));
        },
      )
