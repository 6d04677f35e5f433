-- ===== src/Market/Bridge.antt =====
-- `WSPriceBridge` (backend/market_data/ws_price_bridge.py): from the messages of the WebSocket to the
-- updates of the pipeline.
pub mod Silent
use polyfast.Base.{
  ℕ, ◌+◌, String, Bool, true, false, ◌&&◌, ◌≡◌, ◌≢◌, Option, none, some, List, [], ◌∷◌,
  if◌then◌else◌, str_eq, refl, sym, ap, ◌∙◌, arith, Bool-cases, Option-cases, if-cases, inl, inr,
}
use polyfast.Base.Dict.{Dict, get, put, remove, get-put_ne}
use polyfast.Float.{Float, ◌<?◌}
use polyfast.Market.LivePrice.{Pipeline, ws_record, price_of, update_from_ws}

pub record TokenRoute : Type 0 where
  pub token_id : String
  pub condition_id : String
  pub asset : String
  pub side : String

pub record Bridge : Type 0 where
  pub token_routes : Dict TokenRoute
  pub last_message_at : Dict ℕ
  pub total_routed : ℕ
  pub total_skipped : ℕ

unfoldable pub register_token : String → String → String → String → Bridge → Bridge
register_token token_id condition_id asset side b = record b {
  token_routes =
      put b.token_routes token_id
        (record { token_id = token_id; condition_id = condition_id; asset = asset; side = side });
}

unfoldable pub unregister_token : String → Bridge → Bridge
unregister_token token_id b = record b {
  token_routes = remove b.token_routes token_id;
  last_message_at = remove b.last_message_at token_id;
}

unfoldable pub clear_all : Bridge → Bridge
clear_all b = record b { token_routes = []; last_message_at = [] }

-- A level of the book: without a price, or `float` of it, `none` where that raises.
pub data Level (N : Type 0) : Type 0 where
  no_price : Level N
  price_at : Option N → Level N

-- What `_extract_prices` reads of an event.
pub record WsEvent (N : Type 0) : Type 0 where
  pub asset_id : String
  pub best : Option (Option N × Option N)  -- `best_bid` and `best_ask`, where both are there
  pub bids : List (Level N)
  pub asks : List (Level N)
  pub price : Option (Option N)

module _ {N : Type 0} where
  pair_of : Option N → Option N → Option (N × N)
  pair_of (some bid) (some ask) = some (bid, ask)
  pair_of _ _ = none

  unfoldable pub floats_of : List (Level N) → Option (List N)
  floats_of [] = some []
  floats_of (no_price ∷ ls) = floats_of ls
  floats_of (price_at none ∷ ls) = none
  floats_of (price_at (some x) ∷ ls) = elim (floats_of ls) [ none ↦ none | some xs ↦ some (x ∷ xs) ]

  abbrev pub is_filled : List (Level N) → Bool
  is_filled [] = false
  is_filled (l ∷ ls) = true

module _ {N : Type 0} ⦃f : Float N⦄ where
  -- `max` and `min`; the empty sequence raises.
  max_from : N → List N → N
  max_from best [] = best
  max_from best (x ∷ xs) = max_from (if best <? x then x else best) xs

  min_from : N → List N → N
  min_from best [] = best
  min_from best (x ∷ xs) = min_from (if x <? best then x else best) xs

  max_of : Option (List N) → Option N
  max_of (some (x ∷ xs)) = some (max_from x xs)
  max_of _ = none

  min_of : Option (List N) → Option N
  min_of (some (x ∷ xs)) = some (min_from x xs)
  min_of _ = none

  -- `_extract_prices`
  unfoldable pub extract_prices : WsEvent N → Option (N × N)
  unfolding pair_of max_of min_of max_from min_from
  extract_prices e = elim e.best [
    | some both ↦ pair_of both.0 both.1
    | none ↦
        if is_filled e.bids && is_filled e.asks
        then pair_of (max_of (floats_of e.bids)) (min_of (floats_of e.asks))
        else (elim e.price [ none ↦ none | some p ↦ pair_of p p ])
  ]

-- The bridge and the pipeline that it writes to.
pub record Feed (N : Type 0) : Type 0 where
  pub bridge : Bridge
  pub pipeline : Pipeline N

-- A message: a list of events, the changes of one, or one event.
pub data WsMessage (N : Type 0) : Type 0 where
  batch : List (WsEvent N) → WsMessage N
  price_changes : List (WsEvent N) → WsMessage N
  single : WsEvent N → WsMessage N

module _ {N : Type 0} ⦃f : Float N⦄ (lower : String → String) where
  route_prices : String → TokenRoute → ℕ → Feed N → Option (N × N) → Feed N
  route_prices asset_id route now d none = d
  route_prices asset_id route now d (some pair) = record {
    pipeline =
        update_from_ws lower route.condition_id route.asset route.side pair.0 pair.1 now d.pipeline;
    bridge = record (d.bridge) {
      last_message_at = put d.bridge.last_message_at asset_id now;
      total_routed = d.bridge.total_routed + 1;
    };
  }

  -- An event of a token that has a route, or none.
  follow_route : ℕ → WsEvent N → Feed N → Option TokenRoute → Feed N
  follow_route now e d none = record d {
    bridge = record (d.bridge) { total_skipped = d.bridge.total_skipped + 1 };
  }
  follow_route now e d (some route) = route_prices e.asset_id route now d (extract_prices e)

  -- `_process_single_event`
  unfoldable pub process_single_event : ℕ → WsEvent N → Feed N → Feed N
  unfolding route_prices follow_route
  process_single_event now e d =
      if str_eq e.asset_id ""
      then d
      else follow_route now e d (get d.bridge.token_routes e.asset_id)

  unfoldable pub process_events : ℕ → List (WsEvent N) → Feed N → Feed N
  process_events now [] d = d
  process_events now (e ∷ es) d = process_events now es (process_single_event now e d)

  unfoldable pub on_ws_message : ℕ → WsMessage N → Feed N → Feed N
  on_ws_message now (batch es) d = process_events now es d
  on_ws_message now (price_changes es) d = process_events now es d
  on_ws_message now (single e) d = process_single_event now e d

  -- Messages with their times.
  unfoldable pub on_messages : List (ℕ × WsMessage N) → Feed N → Feed N
  on_messages [] d = d
  on_messages ((now, m) ∷ ms) d = on_messages ms (on_ws_message now m d)
