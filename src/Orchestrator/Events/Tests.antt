-- ===== src/Orchestrator/Events/Tests.antt =====
-- The events of two slots of BTC are handled, of which the earlier one is live. Names are in
-- capitals already.
use polyfast.Base.{String, ◌≡◌, ◌≢◌, true, false, none, some, [], ◌∷◌, refl, arith}
use polyfast.Base.Int.{ℤ, pos}
use polyfast.Base.Dict.{get}
use polyfast.Float.Fixed.{fixed}
use polyfast.Settings.Coin.{CoinSettings, default_settings, is_configured}
use polyfast.Settings.Store.{get_settings}
use polyfast.Settings.Gate.{without_credentials, filter_events, is_tradable, sort_events, objection}
use polyfast.Registry.Service.{DiscoveredEvent}
use polyfast.Market.LivePrice.{OutcomePrices, prices}
use polyfast.Orchestrator.Slots.{slug_start, is_live, read_digits, is_current}
use polyfast.Orchestrator.Events.{Chain, handle_discovered_events}
use polyfast.Orchestrator.Events.Gathering.{last_live}
use polyfast.Orchestrator.Events.Live.{IsOrderly, Trades, handle_discovered_events-Trades}

abbrev event_at : String → String → DiscoveredEvent
event_at cid slug = record {
  condition_id = cid;
  asset = "BTC";
  question = some "Bitcoin Up or Down?";
  slug = slug;
  end_date = 1770000300;
  discovered_at = 1770000010;
  duration = "5m";
  category = "crypto";
  clob_token_ids = "k1" ∷ "k2" ∷ [];
  outcomes = "Up" ∷ "Down" ∷ [];
  outcome_prices = "[0.4, 0.6]";
}

abbrev this_slot : DiscoveredEvent
this_slot = event_at "c1" "btc-updown-5m-1770000000"

abbrev next_slot : DiscoveredEvent
next_slot = event_at "c2" "btc-updown-5m-1770000300"

abbrev btc : CoinSettings ℤ
btc = record {
  coin = "BTC";
  coin_enabled = true;
  side_mode = (default_settings {N = ℤ} "BTC").side_mode;
  delta_threshold = pos 5000;
  price_min = pos 5100;
  price_max = pos 8500;
  spread_max = pos 300;
  time_min = pos 3000;
  time_max = pos 27000;
  event_max = 1;
  order_amount = pos 500;
  reactivate_on_return = true;
}

abbrev chain : Chain ℤ
chain = record {
  paused = false;
  credentials = without_credentials;
  paper_mode = true;
  settings = ("BTC", btc) ∷ [];
  pipeline = record { records = []; threshold = 30 };
  subscriptions = record {
    active_events = [];
    bridge = record {
      token_routes = [];
      last_message_at = [];
      total_routed = 0;
      total_skipped = 0;
    };
    coin_prices = record { records = []; coins = []; total_updates = 0; threshold = 15 };
    rtds = none;
  };
  ptb = [];
  tasks = [];
}

abbrev given : String → OutcomePrices ℤ
given s = prices (some (pos 40) ∷ some (pos 60) ∷ [])

abbrev title : DiscoveredEvent → String
title e = e.slug

chain-IsOrderly : IsOrderly chain
unfolding get
chain-IsOrderly = record { routed = λ tid r h. ground arith; in_step = λ r h. ground arith }

live_here :
    last_live 1770000100 "BTC"
      (filter_events
        (λ s. s)
        title
        chain.credentials
        true
        chain.settings
        (this_slot ∷ next_slot ∷ [])).eligible
    ≡ some this_slot
unfolding last_live is_live slug_start read_digits is_current filter_events is_tradable get
    default_settings sort_events objection get_settings is_configured
live_here = refl

no_old_event : get chain.subscriptions.active_events "BTC" ≢ some ""
unfolding get
no_old_event h = ground arith

handle_discovered_events-Trades_example :
    let c' =
      handle_discovered_events
        (λ s. s)
        title
        given
        1770000100
        1770000100
        true
        (this_slot ∷ next_slot ∷ [])
        chain in
    Trades "BTC" "c1" c' × IsOrderly c'
handle_discovered_events-Trades_example =
    handle_discovered_events-Trades (λ s. s) title given 1770000100 1770000100 true
      (this_slot ∷ next_slot ∷ []) chain this_slot "BTC" chain-IsOrderly live_here refl refl refl
      refl no_old_event
