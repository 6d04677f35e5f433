-- ===== src/Settlement/World.antt =====
-- What `SettlementOrchestrator` (backend/orchestrator/settlement.py) asks of the rest of the program
-- and of the exchange, and whether a market is resolved and who won.
use polyfast.Base.{ℕ, String, Bool, true, false, ◌&&◌, Option, none, some, if◌then◌else◌, str_eq}
use polyfast.Base.Dict.{Dict, get, put}
use polyfast.Float.{Float, ◌<?◌}
use polyfast.Position.Record.{PositionRecord}

-- The result of `get_market_resolution`, or that there is no CLOB client.
pub data MarketReply : Type 0 where
  no_clob : MarketReply
  resolved : String → MarketReply  -- the winning side
  unresolved : MarketReply  -- closed without a winner, or not closed

-- The result of the relayer's `redeem_positions`.
pub data RelayerReply (N : Type 0) : Type 0 where
  redeemed : N → RelayerReply N  -- `success`, with the payout
  not_redeemed : String → RelayerReply N

-- The replies during one pass, and its time. `claim_ids` gives the identifier of the claim that is
-- made for a position.
pub record World (N : Type 0) : Type 0 where
  pub now : ℕ
  pub paper_mode : Bool
  pub claim_ids : String → String
  pub market : String → MarketReply
  pub relayer : String → RelayerReply N  -- by position_id
  pub ptb_value : String → Option N  -- by condition_id, `_get_ptb_value`
  pub coin_usd : String → N  -- by asset, `_get_coin_usd`

module _ {N : Type 0} where
  -- `_check_resolved`, with `_winner_cache` as it is afterwards.
  unfoldable pub check_resolved : World N → String → Dict String → Bool × Dict String
  check_resolved w cid cache = elim (w.market cid) [
    | no_clob ↦ (w.paper_mode, cache)
    | resolved side ↦ (true, put cache cid side)
    | unresolved ↦ (false, cache)
  ]

module _ {N : Type 0} ⦃f : Float N⦄ where
  -- The guess of paper mode, from the price now and the price to beat, else from the profit.
  unfoldable pub guess_winner : World N → PositionRecord N → Bool
  guess_winner w p =
      let coin = w.coin_usd p.asset in
      elim (w.ptb_value p.condition_id) [
        | none ↦ f.zero_f <? p.net_realized_pnl
        | some ptb ↦
            if (f.zero_f <? ptb) && (f.zero_f <? coin)
            then str_eq p.side (if ptb <? coin then "UP" else "DOWN")
            else f.zero_f <? p.net_realized_pnl
      ]

  -- `_determine_winner`; an empty text in the cache counts as none.
  unfoldable pub determine_winner : World N → Dict String → PositionRecord N → Bool
  determine_winner w cache p = elim (get cache p.condition_id) [
    | none ↦ guess_winner w p
    | some side ↦ if str_eq side "" then guess_winner w p else str_eq p.side side
  ]
