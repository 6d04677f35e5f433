-- ===== src/Persistence/Coins.antt =====
-- `SettingsStoreDB` (backend/persistence/settings_store_db.py).
use polyfast.Base.{
  ℕ, String, Bool, true, false, not, ◌≡◌, Option, some, List, refl, ◌==◌, one_if, arith,
}
use polyfast.Settings.Coin.{CoinSettings}
use polyfast.Persistence.Columns.{
  Texts, member_of, ◌>>=◌, side_mode_value, side_modes, side_mode-found,
}
use polyfast.Persistence.Database.{Database, try_load, load_where}
use polyfast.Persistence.Stored.{IsSaved, load_where-IsSaved}

-- A row of `coin_settings`.
pub record CoinRow (N : Type 0) : Type 0 where
  pub coin : String
  pub coin_enabled : ℕ
  pub side_mode : String
  pub delta_threshold : N
  pub price_min : N
  pub price_max : N
  pub spread_max : N
  pub time_min : N
  pub time_max : N
  pub event_max : ℕ
  pub order_amount : N
  pub reactivate_on_return : ℕ
  pub updated_at : String

abbrev pub coin_key : {N : Type 0} → CoinRow N → String
coin_key r = r.coin

-- `bool(n)`
abbrev pub bool_of : ℕ → Bool
bool_of n = not (n == 0)

bool_of-one_if : (b : Bool) → bool_of (one_if b) ≡ b
bool_of-one_if true = refl
bool_of-one_if false = refl

unfoldable pub coin_row : {N : Type 0} → Texts → ℕ → CoinSettings N → CoinRow N
coin_row x now c = record {
  coin = c.coin;
  coin_enabled = one_if c.coin_enabled;
  side_mode = side_mode_value c.side_mode;
  delta_threshold = c.delta_threshold;
  price_min = c.price_min;
  price_max = c.price_max;
  spread_max = c.spread_max;
  time_min = c.time_min;
  time_max = c.time_max;
  event_max = c.event_max;
  order_amount = c.order_amount;
  reactivate_on_return = one_if c.reactivate_on_return;
  updated_at = x.isoformat now;
}

module _ {N : Type 0} where
  -- `_row_to_settings`; `none` where it raises.
  unfoldable pub row_to_settings : CoinRow N → Option (CoinSettings N)
  row_to_settings r = do
    side_mode ← member_of side_mode_value side_modes r.side_mode
    some (record {
      coin = r.coin;
      coin_enabled = bool_of r.coin_enabled;
      side_mode = side_mode;
      delta_threshold = r.delta_threshold;
      price_min = r.price_min;
      price_max = r.price_max;
      spread_max = r.spread_max;
      time_min = r.time_min;
      time_max = r.time_max;
      event_max = r.event_max;
      order_amount = r.order_amount;
      reactivate_on_return = bool_of r.reactivate_on_return;
    })

  row_to_settings-row :
      (x : Texts) (now : ℕ) (c : CoinSettings N) → row_to_settings (coin_row x now c) ≡ some c
  unfolding row_to_settings coin_row
  row_to_settings-row x now c =
      rw
        (
          side_mode-found c.side_mode,
          bool_of-one_if c.coin_enabled,
          bool_of-one_if c.reactivate_on_return,
        )
        refl

  row_to_settings-key :
      (r : CoinRow N) (c : CoinSettings N) → row_to_settings r ≡ some c → c.coin ≡ coin_key r
  unfolding row_to_settings
  row_to_settings-key r c e = ground arith

abbrev pub all_coins : {N : Type 0} → CoinRow N → Bool
all_coins r = true

module _ {N T : Type 0} (x : Texts) (db : Database (CoinRow N) T coin_key) where
  abbrev pub save : ℕ → CoinSettings N → T → Bool × T
  save now c t = db.insert_or_replace (coin_row x now c) t

  abbrev pub load_all : T → List (CoinSettings N)
  load_all t = load_where db row_to_settings all_coins t

  -- Where a save went through and neither the load before nor the query after raises, `load_all`
  -- then gives the saved settings, field by field, and the others that it gave before.
  pub load_all-save_settings :
      (now : ℕ) (c : CoinSettings N) (t t' : T) (before : List (CoinSettings N))
      (rs : List (CoinRow N))
      → save now c t ≡ (true, t')
      → try_load db row_to_settings all_coins t ≡ some before
      → db.query all_coins t' ≡ some rs
      → IsSaved (λ q. q.coin) true c before (load_all t')
  unfolding coin_row
  load_all-save_settings now c t t' before rs saved loaded asked =
      load_where-IsSaved db row_to_settings (λ q. q.coin) row_to_settings-key c (coin_row x now c)
        (row_to_settings-row x now c) all_coins t t' saved before rs loaded asked
