-- ===== src/Exit/Evaluator/ForceSell.antt =====
-- When force-sell triggers, and with which trigger set.
use polyfast.Base.{Bool, true, false, not, ◌&&◌, ◌||◌, ◌≡◌, ◌↔◌, some, [], ◌∷◌, arith}
use polyfast.Float.{Float}
use polyfast.Position.State.{force_sell, time}
use polyfast.Position.Record.{PositionRecord, is_open}
use polyfast.Exit.Evaluator.{
  ExitConfig, force_exit, triggers, time_met, pnl_waiting, pnl_met, evaluate_force_sell,
}

module _ {N : Type 0} ⦃f : Float N⦄ where
  -- Each selected condition holds, where a loss that cannot be computed is passed over if the time
  -- condition is selected and holds.
  abbrev pub all_selected_met : ExitConfig N → PositionRecord N → N → N → Bool → Bool
  all_selected_met c r price seconds fresh =
      (not c.fs_time_enabled || time_met c seconds)
      && (not c.fs_pnl_enabled || pnl_met c fresh r price || (not fresh && time_met c seconds))

  -- Force-sell triggers exactly for an open position with at least one condition selected, where
  -- every selected one holds, or the time condition holds and the loss cannot be computed.
  pub evaluate_force_sell_iff :
      (c : ExitConfig N) (r : PositionRecord N) (price seconds : N) (fresh : Bool)
      → ((evaluate_force_sell c r price seconds fresh).should_exit ≡ true) ↔ (
          (is_open r ≡ true)
          × ((c.fs_time_enabled || c.fs_pnl_enabled) ≡ true)
          × (all_selected_met c r price seconds fresh ≡ true))
  unfolding evaluate_force_sell time_met pnl_waiting pnl_met
  evaluate_force_sell_iff c r price seconds fresh = (λ h. ground arith, λ h. ground arith)

  -- Its reason is force-sell, and its trigger set names exactly the conditions that hold; with an
  -- outcome that is not fresh it never names the loss.
  pub evaluate_force_sell-trigger_set :
      (c : ExitConfig N) (r : PositionRecord N) (price seconds : N) (fresh : Bool)
      → (evaluate_force_sell c r price seconds fresh).should_exit ≡ true
      → ((evaluate_force_sell c r price seconds fresh).reason ≡ some force_sell)
        × ((evaluate_force_sell c r price seconds fresh).trigger_set
            ≡ triggers (time_met c seconds) (pnl_met c fresh r price))
  unfolding evaluate_force_sell time_met pnl_waiting pnl_met
  evaluate_force_sell-trigger_set c r price seconds fresh h = ground arith

  -- With both conditions selected and an outcome that is not fresh, force-sell still triggers on the
  -- time condition alone.
  pub evaluate_force_sell-stale :
      (c : ExitConfig N) (r : PositionRecord N) (price seconds : N)
      → is_open r ≡ true
      → c.fs_time_enabled ≡ true
      → c.fs_pnl_enabled ≡ true
      → time_met c seconds ≡ true
      → evaluate_force_sell c r price seconds false ≡ force_exit (time ∷ [])
  unfolding evaluate_force_sell pnl_waiting
  evaluate_force_sell-stale c r price seconds o t p m = ground arith
