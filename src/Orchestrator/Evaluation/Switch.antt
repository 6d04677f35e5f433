-- ===== src/Orchestrator/Evaluation/Switch.antt =====
-- What the evaluation does with the dispatch switched off.
use polyfast.Base.{
  ℕ, String, Bool, true, false, ◌&&◌, ◌||◌, ◌≡◌, refl, ◌∙◌, List, [], ◌∷◌, arith, if-cases,
}
use polyfast.Float.{Float}
use polyfast.Settings.Coin.{CoinSettings}
use polyfast.Orchestrator.Evaluation.Lookup.{Moment}
use polyfast.Orchestrator.Evaluation.{
  Trader, EvaluationConfig, OrderReply, is_entry, evaluate_single, place_order, dispatch_on,
  dispatch_entry, evaluate_coin, evaluate_coins, evaluate_all_eligible,
}

and-right : (a b : Bool) → (a && b) ≡ true → b ≡ true
and-right a b h = ground arith

module _ {N : Type 0} ⦃f : Float N⦄ (upper : String → String) (num : ℕ → N) (k : EvaluationConfig N)
    (m : Moment N) where
  -- A dispatch does not touch the switch.
  dispatch_entry-switch :
      (c : CoinSettings N) (side : String) (w : OrderReply N) (t : Trader N)
      → (dispatch_entry upper num k m c side w t).order_dispatch_enabled ≡ t.order_dispatch_enabled
  unfolding dispatch_entry dispatch_on place_order
  dispatch_entry-switch c side w t = ground arith

  evaluate_coin-off :
      (w : OrderReply N) (c : CoinSettings N) (t : Trader N)
      → t.order_dispatch_enabled ≡ false
      → k.paper_mode ≡ false
      → let t' = evaluate_coin upper num k m w c t in
        (t'.desk ≡ t.desk) × (t'.order_dispatch_enabled ≡ false)
  unfolding evaluate_coin evaluate_single
  evaluate_coin-off w c t off live =
      let (result, x, t') = evaluate_single upper num k m c t in
      if-cases (λ (t2 : Trader N). (t2.desk ≡ t.desk) × (t2.order_dispatch_enabled ≡ false))
        (is_entry result.decision && (t.order_dispatch_enabled || k.paper_mode)) _ _
        (λ b. absurd (ground (arith, and-right (is_entry result.decision) _ b))) (λ b. (refl, off))

  evaluate_coins-off :
      (replies : String → OrderReply N) (cs : List (CoinSettings N)) (t : Trader N)
      → t.order_dispatch_enabled ≡ false
      → k.paper_mode ≡ false
      → (evaluate_coins upper num k m replies cs t).desk ≡ t.desk
  unfolding evaluate_coins
  evaluate_coins-off replies [] t off live = refl
  evaluate_coins-off replies (c ∷ cs) t off live =
      let (same, off') = evaluate_coin-off (replies c.coin) c t off live in
      evaluate_coins-off replies cs _ off' live ∙ same

  -- With the dispatch switched off, outside of paper mode, a round over all eligible coins sends
  -- nothing, whatever the rules decide: positions, balance and counters stay.
  pub evaluate_all_eligible-off :
      (replies : String → OrderReply N) (t : Trader N)
      → t.order_dispatch_enabled ≡ false
      → k.paper_mode ≡ false
      → (evaluate_all_eligible upper num k m replies t).desk ≡ t.desk
  unfolding evaluate_all_eligible
  evaluate_all_eligible-off replies t off live = evaluate_coins-off replies _ t off live
