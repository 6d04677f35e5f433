-- ===== src/Market/Subscriptions/Tests.antt =====
-- An update that changes BTC's event, takes ETH and leaves SOL.
use polyfast.Base.{
  String, ◌≡◌, true, false, inl, inr, sym, subst, ◌⊎◌, none, some, [], ◌∷◌, refl, if◌then◌else◌,
  map, arith,
}
use polyfast.Base.Int.{ℤ}
use polyfast.Base.Dict.{Dict, get}
use polyfast.Base.Sets.{contains}
use polyfast.Float.Fixed.{fixed}
use polyfast.Market.Bridge.{TokenRoute}
use polyfast.Market.Rtds.{Rtds, connected}
use polyfast.Market.Subscriptions.{EventData, Subscriptions, update_subscriptions}
use polyfast.Market.Subscriptions.Routed.{IsRouted, cid_of}
use polyfast.Market.Subscriptions.InStep.{IsInStep}
use polyfast.Market.Subscriptions.Active.{next_event, update_subscriptions-IsRouted}
use polyfast.Base.Sets.{keys}

abbrev events : Dict EventData
events =
    (
      "BTC",
      record {
        condition_id = "c2";
        token_ids = "k3" ∷ "k4" ∷ [];
        sides = "Up" ∷ "Down" ∷ [];
        slug = "btc-updown-5m-1770000300";
      },
    )
    ∷ (
      "ETH",
      record {
        condition_id = "c3";
        token_ids = "k5" ∷ [];
        sides = "Up" ∷ [];
        slug = "eth-updown-5m-1770000300";
      },
    )
    ∷ []

abbrev client : Rtds
client = record {
  state = connected;
  ws_open = true;
  reconnect_attempts = 0;
  total_messages = 0;
  subscribed_tokens = "k1" ∷ "k2" ∷ [];
  shut_down = false;
  sent = [];
}

abbrev route : String → String → String → TokenRoute
route tid cid asset = record { token_id = tid; condition_id = cid; asset = asset; side = "up" }

abbrev before : Subscriptions ℤ
before = record {
  active_events = ("BTC", "c1") ∷ ("SOL", "c9") ∷ [];
  bridge = record {
    token_routes = ("k1", route "k1" "c1" "BTC") ∷ ("k2", route "k2" "c9" "SOL") ∷ [];
    last_message_at = [];
    total_routed = 0;
    total_skipped = 0;
  };
  coin_prices = record { records = []; coins = []; total_updates = 0; threshold = 15 };
  rtds = some client;
}

before_routes :
    (tid : String) (r : TokenRoute)
    → get before.bridge.token_routes tid ≡ some r
    → (r ≡ route "k1" "c1" "BTC") ⊎ (r ≡ route "k2" "c9" "SOL")
unfolding get
before_routes tid r h = ground arith

before-IsRouted : IsRouted before
unfolding get
before-IsRouted tid r h = elim (before_routes tid r h) [
  | inl same ↦ subst (λ q. get before.active_events q.asset ≡ some q.condition_id) (sym same) refl
  | inr same ↦ subst (λ q. get before.active_events q.asset ≡ some q.condition_id) (sym same) refl
]

before-IsInStep : IsInStep before
unfolding keys
before-IsInStep r h = ground arith

update_subscriptions-IsRouted_example :
    let s' = update_subscriptions (λ s. s) ("BTC" ∷ "ETH" ∷ []) events true before in
    ((a : String)
      → get s'.active_events a ≡ (
          if contains (map (λ s. s) ("BTC" ∷ "ETH" ∷ [])) a
          then some (next_event (cid_of events a) (get before.active_events a))
          else none))
    × IsRouted s'
    × IsInStep s'
update_subscriptions-IsRouted_example =
    update_subscriptions-IsRouted (λ s. s) events ("BTC" ∷ "ETH" ∷ []) true before before-IsRouted
      before-IsInStep
