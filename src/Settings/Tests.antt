-- ===== src/Settings/Tests.antt =====
-- Settings, updates and the gate on sample coins. Names are in capitals already.
use polyfast.Base.{some, ◌≡◌, String, Bool, true, not, ◌&&◌, [], ◌∷◌, refl, arith, eq_iff}
use polyfast.Base.Int.{ℤ}
use polyfast.Base.Dict.{get}
use polyfast.Base.Lists.{select}
use polyfast.Float.Fixed.{fixed}
use polyfast.Registry.Service.{DiscoveredEvent}
use polyfast.Settings.Coin.{CoinSettings, default_settings}
use polyfast.Settings.Store.{Store}
use polyfast.Settings.Store.Updates.{IsNamed}
use polyfast.Settings.Gate.{
  without_credentials, is_shut, is_tradable, filter_events, filter_events_lem,
}

abbrev same : String → String
same s = s

abbrev btc : CoinSettings ℤ
btc = default_settings "BTC"

abbrev store : Store ℤ
store = ("BTC", btc) ∷ []

store-IsNamed : IsNamed same (λ s. refl) store
unfolding IsNamed get default_settings
store-IsNamed k c h = ground (arith, eq_iff "BTC" k)

abbrev btc_event : DiscoveredEvent
btc_event = record {
  condition_id = "c1";
  asset = "BTC";
  question = some "BTC up or down?";
  slug = "btc-updown";
  end_date = 300;
  discovered_at = 10;
  duration = "5m";
  category = "crypto";
  clob_token_ids = [];
  outcomes = [];
  outcome_prices = "";
}

abbrev title : DiscoveredEvent → String
title e = e.slug

filter_events_lem_example :
    let result = filter_events same title without_credentials true store (btc_event ∷ []) in
    let may : DiscoveredEvent → Bool =
      λ e. not (is_shut without_credentials true) && is_tradable same title store e in
    (result.eligible ≡ select may (btc_event ∷ []))
    × (result.ineligible ≡ select (λ e. not (may e)) (btc_event ∷ []))
filter_events_lem_example =
    filter_events_lem same title without_credentials true store (btc_event ∷ [])
