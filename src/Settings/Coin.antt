-- ===== src/Settings/Coin.antt =====
-- `CoinSettings` (backend/settings/coin_settings.py). The integer bounds stand as numbers of the
-- float type, which is how they are compared.
use polyfast.Base.{ℕ, String, Bool, true, false, ◌&&◌}
use polyfast.Float.{Float, ◌<?◌}
use polyfast.Strategy.Context.{SideMode, dominant_only}

pub record CoinSettings (N : Type 0) : Type 0 where
  pub coin : String
  pub coin_enabled : Bool
  pub side_mode : SideMode
  pub delta_threshold : N
  pub price_min : N
  pub price_max : N
  pub spread_max : N
  pub time_min : N
  pub time_max : N
  pub event_max : ℕ
  pub order_amount : N
  pub reactivate_on_return : Bool

-- A keyword argument of `update_settings`.
pub data Field (N : Type 0) : Type 0 where
  coin_is : String → Field N
  coin_enabled_is : Bool → Field N
  side_mode_is : SideMode → Field N
  delta_threshold_is price_min_is price_max_is spread_max_is : N → Field N
  time_min_is time_max_is order_amount_is : N → Field N
  event_max_is : ℕ → Field N
  reactivate_on_return_is : Bool → Field N
  unknown_field : Field N  -- a name that the settings do not have

module _ {N : Type 0} where
  -- `setattr(existing, key, value)`; `coin` and `coin_enabled` are taken out before.
  unfoldable pub set_field : Field N → CoinSettings N → CoinSettings N
  set_field (coin_is x) c = c
  set_field (coin_enabled_is x) c = c
  set_field (side_mode_is x) c = record c { side_mode = x }
  set_field (delta_threshold_is x) c = record c { delta_threshold = x }
  set_field (price_min_is x) c = record c { price_min = x }
  set_field (price_max_is x) c = record c { price_max = x }
  set_field (spread_max_is x) c = record c { spread_max = x }
  set_field (time_min_is x) c = record c { time_min = x }
  set_field (time_max_is x) c = record c { time_max = x }
  set_field (order_amount_is x) c = record c { order_amount = x }
  set_field (event_max_is x) c = record c { event_max = x }
  set_field (reactivate_on_return_is x) c = record c { reactivate_on_return = x }
  set_field unknown_field c = c

module _ {N : Type 0} ⦃f : Float N⦄ where
  -- `CoinSettings(coin=…)`
  unfoldable pub default_settings : String → CoinSettings N
  default_settings coin = record {
    coin = coin;
    coin_enabled = false;
    side_mode = dominant_only;
    delta_threshold = f.zero_f;
    price_min = f.zero_f;
    price_max = f.zero_f;
    spread_max = f.zero_f;
    time_min = f.zero_f;
    time_max = f.zero_f;
    event_max = 1;
    order_amount = f.zero_f;
    reactivate_on_return = true;
  }

  unfoldable pub is_configured : CoinSettings N → Bool
  is_configured c =
      (f.zero_f <? c.delta_threshold)
      && (f.zero_f <? c.price_min)
      && (f.zero_f <? c.price_max)
      && (c.price_min <? c.price_max)
      && (f.zero_f <? c.time_min)
      && (f.zero_f <? c.time_max)
      && (c.time_min <? c.time_max)
      && (f.zero_f <? c.order_amount)

  abbrev pub is_trade_eligible : CoinSettings N → Bool
  is_trade_eligible c = c.coin_enabled && is_configured c
