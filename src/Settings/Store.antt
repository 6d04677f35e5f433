-- ===== src/Settings/Store.antt =====
-- `SettingsStore` (backend/settings/settings_store.py), without the saves to the database, whose
-- results it does not read. `upper` is Python's `str.upper`. The store's settings are the ones that
-- its callers mutate.
pub mod Updates
use polyfast.Base.{String, Bool, not, Option, none, some, List, [], ◌∷◌}
use polyfast.Base.Dict.{Dict, get, put, remove, values}
use polyfast.Base.Lists.{select}
use polyfast.Float.{Float}
use polyfast.Settings.Coin.{CoinSettings, Field, set_field, default_settings, is_trade_eligible}

-- `_settings`
abbrev pub Store : Type 0 → Type 0
Store N = Dict (CoinSettings N)

module _ {N : Type 0} (upper : String → String) where
  -- `get`
  unfoldable pub get_settings : String → Store N → Option (CoinSettings N)
  get_settings coin s = get s (upper coin)

  -- `set`
  unfoldable pub set_settings : CoinSettings N → Store N → Store N
  set_settings c s = put s (upper c.coin) c

  -- `delete`
  unfoldable pub delete_settings : String → Store N → Store N
  delete_settings coin s = remove s (upper coin)

  abbrev pub toggled : CoinSettings N → CoinSettings N
  toggled c = record c { coin_enabled = not c.coin_enabled }

  -- The settings under the symbol are mutated, and then set.
  unfoldable pub toggle_coin : String → Store N → Option (CoinSettings N) × Store N
  toggle_coin symbol s = elim (get_settings symbol s) [
    | none ↦ (none, s)
    | some c ↦ (some (toggled c), set_settings (toggled c) (put s (upper symbol) (toggled c)))
  ]

unfoldable pub set_fields : {N : Type 0} → List (Field N) → CoinSettings N → CoinSettings N
set_fields [] c = c
set_fields (x ∷ xs) c = set_fields xs (set_field x c)

module _ {N : Type 0} ⦃f : Float N⦄ (upper : String → String) where
  -- What an update starts from.
  unfoldable pub settings_of : String → Store N → CoinSettings N
  settings_of symbol s = elim (get_settings upper (upper symbol) s) [
    | none ↦ default_settings (upper symbol)
    | some c ↦ c
  ]

  unfoldable pub update_settings : String → List (Field N) → Store N → CoinSettings N × Store N
  update_settings symbol fields s =
      let c = set_fields fields (settings_of symbol s) in
      (
        c,
        set_settings upper c (elim (get_settings upper (upper symbol) s) [
          | none ↦ s
          | some old ↦ put s (upper (upper symbol)) c
        ]),
      )

  -- `get_eligible_coins`
  unfoldable pub get_eligible_coins : Store N → List (CoinSettings N)
  get_eligible_coins s = select is_trade_eligible (values s)
