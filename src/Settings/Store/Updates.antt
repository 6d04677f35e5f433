-- ===== src/Settings/Store/Updates.antt =====
-- What an update and a toggle change.
use polyfast.Base.{
  String, ◌≡◌, some, List, [], ◌∷◌, refl, arith, ◌∙◌, sym, ap, inl, inr, Option-cases,
}
use polyfast.Base.Dict.{get, get-put_self}
use polyfast.Float.{Float}
use polyfast.Settings.Coin.{CoinSettings, Field, set_field, default_settings}
use polyfast.Settings.Store.{
  Store, get_settings, set_settings, set_fields, settings_of, update_settings,
}

set_field-keeps :
    {N : Type 0} (x : Field N) (c : CoinSettings N)
    → ((set_field x c).coin ≡ c.coin) × ((set_field x c).coin_enabled ≡ c.coin_enabled)
unfolding set_field
set_field-keeps x c = ground arith

set_fields-keeps :
    {N : Type 0} (xs : List (Field N)) (c : CoinSettings N)
    → ((set_fields xs c).coin ≡ c.coin) × ((set_fields xs c).coin_enabled ≡ c.coin_enabled)
unfolding set_fields
set_fields-keeps [] c = (refl, refl)
set_fields-keeps (x ∷ xs) c =
    let first = set_field-keeps x c in
    let rest = set_fields-keeps xs (set_field x c) in (rest.0 ∙ first.0, rest.1 ∙ first.1)

module _ {N : Type 0} ⦃f : Float N⦄ (upper : String → String)
    (upper_twice : (s : String) → upper (upper s) ≡ upper s) where
  -- Settings that stand under their own coin's name.
  unfoldable pub IsNamed : Store N → Type 0
  IsNamed s = (k : String) (c : CoinSettings N) → get s k ≡ some c → upper c.coin ≡ k

  settings_of-coin :
      (symbol : String) (s : Store N)
      → IsNamed s
      → upper (settings_of upper symbol s).coin ≡ upper symbol
  unfolding settings_of get_settings default_settings IsNamed
  settings_of-coin symbol s named = elim (Option-cases (get s (upper (upper symbol)))) [
    | inl missing ↦ rw (missing, settings_of) (upper_twice symbol)
    | inr (c, found) ↦
        rw (found, settings_of) (named (upper (upper symbol)) c found ∙ upper_twice symbol)
  ]

  -- With an `upper` that is idempotent and settings that stand under their own coin's name, an
  -- update never switches a coin on or off, whatever fields it is given: it is found under the
  -- symbol afterwards with the switch that it had, which is off for a coin that is new.
  pub update_settings-enabled :
      (symbol : String) (fields : List (Field N)) (s : Store N)
      → IsNamed s
      → let s' = (update_settings upper symbol fields s).1 in
        (c : CoinSettings N) × (get_settings upper symbol s' ≡ some c)
        × (c.coin_enabled ≡ (settings_of upper symbol s).coin_enabled)
  unfolding update_settings set_settings get_settings
  update_settings-enabled symbol fields s named =
      let old = settings_of upper symbol s in
      let c = set_fields fields old in
      let kept = set_fields-keeps fields old in
      let key : upper c.coin ≡ upper symbol = ap upper kept.0 ∙ settings_of-coin symbol s named in
      (c, rw (sym key) (get-put_self _ (upper c.coin) c), kept.1)
