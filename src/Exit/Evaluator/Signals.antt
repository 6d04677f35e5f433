-- ===== src/Exit/Evaluator/Signals.antt =====
-- When take-profit and stop-loss trigger, and when a close may be taken back.
use polyfast.Base.{Bool, true, false, not, ◌&&◌, ◌≡◌, ◌↔◌, ◌⊎◌, some, arith, eq_refl, if◌then◌else◌}
use polyfast.Base.Dict.{Dict, get-put}
use polyfast.Float.{Float, neg, ◌<?◌, ◌≤?◌}
use polyfast.Position.State.{take_profit, stop_loss}
use polyfast.Position.Record.{PositionRecord, is_open, pnl_pct}
use polyfast.Exit.Evaluator.{
  ExitConfig, has_no_shares, previous_price, is_jump, judge, evaluate, should_cancel_close,
}

module _ {N : Type 0} ⦃f : Float N⦄ where
  -- The position can be valued: it is open, with a positive price and positive shares.
  abbrev pub is_valued : PositionRecord N → Bool
  is_valued r = is_open r && not (has_no_shares r)

  -- Take-profit triggers exactly for an open position with shares whose profit reaches the target;
  -- it comes before stop-loss.
  pub evaluate-take_profit :
      (c : ExitConfig N) (prices : Dict N) (r : PositionRecord N) (price : N)
      → ((evaluate c prices r price).0.reason ≡ some take_profit)
        ↔ ((is_valued r ≡ true) × ((c.tp_pct ≤? pnl_pct r price) ≡ true))
  unfolding evaluate judge
  evaluate-take_profit c prices r price = (λ h. ground arith, λ h. ground arith)

  -- Stop-loss triggers exactly for an open position with shares, where it is switched on, the target
  -- is not reached, the loss reaches the limit, and the price did not fall by more than the
  -- threshold since the evaluation before.
  pub evaluate-stop_loss :
      (c : ExitConfig N) (prices : Dict N) (r : PositionRecord N) (price : N)
      → ((evaluate c prices r price).0.reason ≡ some stop_loss) ↔ (
          (is_valued r ≡ true)
          × ((c.tp_pct ≤? pnl_pct r price) ≡ false)
          × (c.sl_enabled ≡ true)
          × ((pnl_pct r price ≤? neg c.sl_pct) ≡ true)
          × (is_jump c (previous_price prices r.position_id price) price ≡ false))
  unfolding evaluate judge
  evaluate-stop_loss c prices r price = (λ h. ground arith, λ h. ground arith)

  -- `should_exit` is set exactly with one of these two reasons.
  pub evaluate-reasons :
      (c : ExitConfig N) (prices : Dict N) (r : PositionRecord N) (price : N)
      → ((evaluate c prices r price).0.should_exit ≡ true) ↔ (
          ((evaluate c prices r price).0.reason ≡ some take_profit)
          ⊎ ((evaluate c prices r price).0.reason ≡ some stop_loss))
  unfolding evaluate judge
  evaluate-reasons c prices r price = (λ h. ground arith, λ h. ground arith)

  -- A price that the evaluation has seen is the one that the next is compared with; a position that
  -- cannot be valued leaves the prices alone.
  pub evaluate-remembers :
      (c : ExitConfig N) (prices : Dict N) (r : PositionRecord N) (price later : N)
      → previous_price (evaluate c prices r price).1 r.position_id later
        ≡ (if is_valued r then price else previous_price prices r.position_id later)
  unfolding evaluate previous_price
  evaluate-remembers c prices r price later =
      ground (arith, get-put prices r.position_id r.position_id price, eq_refl r.position_id)

  -- The latch: a close is taken back only for take-profit with re-evaluation switched on, and then
  -- exactly if the profit is below the target. Stop-loss, force-sell and the others stay.
  pub should_cancel_close_iff :
      (c : ExitConfig N) (r : PositionRecord N) (price : N)
      → (should_cancel_close c r price ≡ true) ↔ (
          (r.close_reason ≡ some take_profit)
          × (c.tp_reevaluate ≡ true)
          × ((pnl_pct r price <? c.tp_pct) ≡ true))
  unfolding should_cancel_close
  should_cancel_close_iff c r price = (λ h. ground arith, λ h. ground arith)
