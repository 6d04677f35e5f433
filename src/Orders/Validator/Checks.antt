-- ===== src/Orders/Validator/Checks.antt =====
-- Validation against the list of checks that the module's docstring gives.
use polyfast.Base.{◌<◌, false, ◌&&◌, ◌≡◌, ◌≢◌, ◌↔◌, eq_iff, arith}
use polyfast.Float.{Float, ◌<?◌}
use polyfast.Orders.Intent.{OrderIntent}
use polyfast.Orders.Validator.{valid, Limits, validate}

module _ {N : Type 0} ⦃f : Float N⦄ where
  -- What an order must meet to be sent.
  pub record IsSendable (i : OrderIntent N) (l : Limits N) : Type 0 where
    pub no_claim : (l.wait_for_claim_redeem && l.has_pending_claims) ≡ false
    pub has_token : i.token_id ≢ ""
    pub has_condition : i.condition_id ≢ ""
    pub large_enough : (i.amount_usd <? l.min_order_usd) ≡ false
    pub covered : (l.available_balance <? i.amount_usd) ≡ false
    pub event_room : l.event_fill_count < l.event_max
    pub bot_room : l.open_position_count < l.bot_max

  -- An order is found valid exactly when no claim blocks it, it names a token and a condition, its
  -- amount reaches the minimum and is covered by the balance, and the event and the bot both have
  -- room for one more position.
  pub validate-IsSendable :
      (i : OrderIntent N) (l : Limits N) → (validate i l ≡ valid) ↔ IsSendable i l
  unfolding validate
  validate-IsSendable i l = (
    λ h. record {
      no_claim = ground arith;
      has_token = λ e. ground (arith, eq_iff i.token_id "");
      has_condition = λ e. ground (arith, eq_iff i.condition_id "");
      large_enough = ground arith;
      covered = ground arith;
      event_room = ground arith;
      bot_room = ground arith;
    },
    λ h.
        ground
          (arith, eq_iff i.token_id "", eq_iff i.condition_id "", h.has_token, h.has_condition),
  )
