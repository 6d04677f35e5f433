-- ===== src/Market/Subscriptions.antt =====
-- `SubscriptionManager` (backend/orchestrator/subscription_manager.py): the subscriptions of the
-- eligible coins. `upper` is Python's `str.upper`.
pub mod Routed
pub mod InStep
pub mod Active
mod Tests
use polyfast.Base.{
  ℕ, zero, suc, String, Bool, true, false, not, ◌&&◌, ◌||◌, Option, none, some, List, [], ◌∷◌, ◌++◌,
  map, if◌then◌else◌, str_eq, is_some,
}
use polyfast.Base.Dict.{Dict, get, put, remove}
use polyfast.Base.Lists.{select}
use polyfast.Base.Sets.{contains, sorted_set, keys}
use polyfast.Float.{Float}
use polyfast.Market.Bridge.{TokenRoute, Bridge, register_token, unregister_token}
use polyfast.Market.Rtds.{Rtds, subscribe, update_subscription, is_connected, is_empty}
use polyfast.Market.CoinPrices.{CoinPrices, set_coins}
use polyfast.Market.Cleanup.{unregister_tokens}

pub record SubscriptionDiff : Type 0 where
  pub to_subscribe : List String
  pub to_unsubscribe : List String
  pub unchanged : List String

-- An event's entry of `event_map`.
pub record EventData : Type 0 where
  pub condition_id : String
  pub token_ids : List String
  pub sides : List String
  pub slug : String

-- The manager with the objects that it works on; it may be without an RTDS client.
pub record Subscriptions (N : Type 0) : Type 0 where
  pub active_events : Dict String  -- the condition of each asset's event
  pub bridge : Bridge
  pub coin_prices : CoinPrices N
  pub rtds : Option Rtds

-- What `event_map.get(asset, {})` reads of a missing asset.
abbrev pub no_event : EventData
no_event = record { condition_id = ""; token_ids = []; sides = []; slug = "" }

unfoldable pub event_of : Dict EventData → String → EventData
event_of events asset = elim (get events asset) [ none ↦ no_event | some e ↦ e ]

-- `sides[i] if i < len(sides) else "up"`, token by token.
unfoldable pub register_tokens : String → String → List String → List String → Bridge → Bridge
register_tokens cid asset [] sides b = b
register_tokens cid asset (t ∷ ts) [] b =
    register_tokens cid asset ts [] (register_token t cid asset "up" b)
register_tokens cid asset (t ∷ ts) (side ∷ sides) b =
    register_tokens cid asset ts sides (register_token t cid asset side b)

-- `[tid for tid, route in routes.items() if route.asset.upper() == asset.upper()]`
unfoldable pub asset_tokens : (String → String) → String → Dict TokenRoute → List String
asset_tokens upper asset [] = []
asset_tokens upper asset ((tid, r) ∷ d) =
    let rest = asset_tokens upper asset d in
    if str_eq (upper r.asset) (upper asset) then tid ∷ rest else rest

-- `new_cid and old_cid and new_cid != old_cid`
unfoldable pub is_rotated : String → String → Bool
is_rotated new old = not (str_eq new "") && not (str_eq old "") && not (str_eq new old)

abbrev pub or_empty : Option String → String
or_empty none = ""
or_empty (some cid) = cid

-- The RTDS client takes the tokens that have a route now, and asks for them if it is connected.
unfoldable pub renew : Bool → List String → Rtds → Rtds
renew went tokens r =
    let r' = update_subscription tokens r in
    if is_connected r' then (subscribe tokens went r').1 else r'

module _ {N : Type 0} where
  unfoldable pub resubscribe_rtds : Bool → Subscriptions N → Subscriptions N
  resubscribe_rtds went s = record s {
    rtds = elim s.rtds [ none ↦ none | some r ↦ some (renew went (keys s.bridge.token_routes) r) ];
  }

module _ {N : Type 0} (upper : String → String) where
  -- `compute_diff`
  unfoldable pub compute_diff : List String → Subscriptions N → SubscriptionDiff
  compute_diff assets s =
      let wanted = sorted_set (map upper assets) in
      let had = sorted_set (keys s.active_events) in
      record {
        to_subscribe = select (λ a. not (contains had a)) wanted;
        to_unsubscribe = select (λ a. not (contains wanted a)) had;
        unchanged = select (contains had) wanted;
      }

  -- `_unsubscribe_asset`
  unfoldable pub unsubscribe_asset : String → Subscriptions N → Subscriptions N
  unsubscribe_asset asset s = record s {
    bridge = unregister_tokens (asset_tokens upper asset s.bridge.token_routes) s.bridge;
  }

module _ {N : Type 0} ⦃f : Float N⦄ (upper : String → String) where
  unfoldable pub add_coin : String → CoinPrices N → CoinPrices N
  add_coin asset c =
      if contains (map upper c.coins) (upper asset)
      then c
      else set_coins upper (c.coins ++ upper asset ∷ []) c

  -- `_subscribe_asset`
  unfoldable pub subscribe_asset : String → EventData → Subscriptions N → Subscriptions N
  subscribe_asset asset e s = record s {
    bridge = register_tokens e.condition_id asset e.token_ids e.sides s.bridge;
    coin_prices = add_coin asset s.coin_prices;
  }

  -- The three loops of `apply_diff`. The third one also says whether an event has changed.
  unfoldable pub subscribe_all : Dict EventData → List String → Subscriptions N → Subscriptions N
  subscribe_all events [] s = s
  subscribe_all events (a ∷ as_) s =
      let s' = subscribe_asset a (event_of events a) s in
      subscribe_all events as_
        (record s' { active_events = put s'.active_events a (event_of events a).condition_id })

  unfoldable pub unsubscribe_all : List String → Subscriptions N → Subscriptions N
  unsubscribe_all [] s = s
  unsubscribe_all (a ∷ as_) s =
      let s' = unsubscribe_asset upper a s in
      unsubscribe_all as_ (record s' { active_events = remove s'.active_events a })

  -- The asset's event has another condition than the one that is active.
  unfoldable pub needs_rotation : Dict EventData → String → Subscriptions N → Bool
  needs_rotation events a s =
      is_rotated (event_of events a).condition_id (or_empty (get s.active_events a))

  unfoldable pub rotate : Dict EventData → String → Subscriptions N → Subscriptions N
  rotate events a s =
      let s' = subscribe_asset a (event_of events a) (unsubscribe_asset upper a s) in
      record s' { active_events = put s'.active_events a (event_of events a).condition_id }

  unfoldable pub rotate_all :
      Dict EventData → List String → Bool × Subscriptions N → Bool × Subscriptions N
  rotate_all events [] c = c
  rotate_all events (a ∷ as_) c =
      rotate_all events as_
        (if needs_rotation events a (c.1) then (true, rotate events a (c.1)) else c)

  -- `apply_diff`; `went` says whether the RTDS client's send returns.
  unfoldable pub apply_diff :
      SubscriptionDiff → Dict EventData → Bool → Subscriptions N → Subscriptions N
  apply_diff diff events went s =
      let started = subscribe_all events diff.to_subscribe s in
      let left = unsubscribe_all diff.to_unsubscribe started in
      let (rotated, s') = rotate_all events diff.unchanged (false, left) in
      if not (is_empty diff.to_subscribe) || not (is_empty diff.to_unsubscribe) || rotated
      then resubscribe_rtds went s'
      else s'

  -- What `_handle_discovered_events` does with the diff.
  unfoldable pub update_subscriptions :
      List String → Dict EventData → Bool → Subscriptions N → Subscriptions N
  update_subscriptions assets events went s = apply_diff (compute_diff upper assets s) events went s
