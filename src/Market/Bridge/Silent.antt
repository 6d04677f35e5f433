-- ===== src/Market/Bridge/Silent.antt =====
-- Messages do not reach an event to which no token leads.
use polyfast.Base.{
  ℕ, String, ◌≡◌, ◌≢◌, Option, none, some, List, [], ◌∷◌, str_eq, refl, sym, ap, ◌∙◌, if-cases,
}
use polyfast.Base.Dict.{get, get-put_ne}
use polyfast.Float.{Float}
use polyfast.Market.LivePrice.{ws_record, price_of, update_from_ws}
use polyfast.Market.Bridge.{
  TokenRoute, Bridge, WsEvent, Feed, WsMessage, batch, price_changes, single, extract_prices,
  route_prices, follow_route, process_single_event, process_events, on_ws_message, on_messages,
}

-- No token leads to the event.
unfoldable pub IsUnrouted : String → Bridge → Type 0
IsUnrouted cid b =
    (tid : String) (r : TokenRoute) → get b.token_routes tid ≡ some r → r.condition_id ≢ cid

-- The routes stay, and so does the event's price.
pub record IsSilent {N : Type 0} (cid : String) (d d' : Feed N) : Type 0 where
  pub routes_kept : d'.bridge.token_routes ≡ d.bridge.token_routes
  pub price_kept : get d'.pipeline.records cid ≡ get d.pipeline.records cid

module _ {N : Type 0} ⦃f : Float N⦄ (lower : String → String) (cid : String) where
  still : (d : Feed N) → IsSilent cid d d
  still d = record { routes_kept = refl; price_kept = refl }

  then_still : (d e g : Feed N) → IsSilent cid d e → IsSilent cid e g → IsSilent cid d g
  then_still d e g first next = record {
    routes_kept = next.routes_kept ∙ first.routes_kept;
    price_kept = next.price_kept ∙ first.price_kept;
  }

  route_prices-IsSilent :
      (id : String) (r : TokenRoute) (now : ℕ) (d : Feed N) (found : Option (N × N))
      → r.condition_id ≢ cid
      → IsSilent cid d (route_prices lower id r now d found)
  unfolding route_prices update_from_ws
  route_prices-IsSilent id r now d none other = still d
  route_prices-IsSilent id r now d (some pair) other = record {
    routes_kept = refl;
    price_kept =
        get-put_ne d.pipeline.records r.condition_id cid
          (ws_record lower r.side pair.0 pair.1 now (price_of d.pipeline r.condition_id r.asset))
          other;
  }

  follow_route-IsSilent :
      (now : ℕ) (e : WsEvent N) (d : Feed N) (o : Option TokenRoute)
      → ((r : TokenRoute) → o ≡ some r → r.condition_id ≢ cid)
      → IsSilent cid d (follow_route lower now e d o)
  unfolding follow_route
  follow_route-IsSilent now e d none free = record { routes_kept = refl; price_kept = refl }
  follow_route-IsSilent now e d (some r) free =
      route_prices-IsSilent e.asset_id r now d (extract_prices e) (free r refl)

  process_single_event-IsSilent :
      (now : ℕ) (e : WsEvent N) (d : Feed N)
      → IsUnrouted cid d.bridge
      → IsSilent cid d (process_single_event lower now e d)
  unfolding process_single_event IsUnrouted
  process_single_event-IsSilent now e d free =
      if-cases (λ g. IsSilent cid d g) (str_eq e.asset_id "") d _ (λ h. still d)
        (λ h.
          follow_route-IsSilent now e d (get d.bridge.token_routes e.asset_id) (free e.asset_id))

  -- Where the routes stay, the event stays without one.
  silent-IsUnrouted :
      (d d' : Feed N) → IsSilent cid d d' → IsUnrouted cid d.bridge → IsUnrouted cid d'.bridge
  unfolding IsUnrouted
  silent-IsUnrouted d d' kept free tid r h =
      free tid r (sym (ap (λ m. get m tid) kept.routes_kept) ∙ h)

  process_events-IsSilent :
      (now : ℕ) (es : List (WsEvent N)) (d : Feed N)
      → IsUnrouted cid d.bridge
      → IsSilent cid d (process_events lower now es d)
  unfolding process_events
  process_events-IsSilent now [] d free = still d
  process_events-IsSilent now (e ∷ es) d free =
      let d' = process_single_event lower now e d in
      let first = process_single_event-IsSilent now e d free in
      then_still d d' (process_events lower now es d') first
        (process_events-IsSilent now es d' (silent-IsUnrouted d d' first free))

  on_ws_message-IsSilent :
      (now : ℕ) (m : WsMessage N) (d : Feed N)
      → IsUnrouted cid d.bridge
      → IsSilent cid d (on_ws_message lower now m d)
  unfolding on_ws_message
  on_ws_message-IsSilent now (batch es) d free = process_events-IsSilent now es d free
  on_ws_message-IsSilent now (price_changes es) d free = process_events-IsSilent now es d free
  on_ws_message-IsSilent now (single e) d free = process_single_event-IsSilent now e d free

  pub on_messages-IsSilent :
      (ms : List (ℕ × WsMessage N)) (d : Feed N)
      → IsUnrouted cid d.bridge
      → IsSilent cid d (on_messages lower ms d)
  unfolding on_messages
  on_messages-IsSilent [] d free = still d
  on_messages-IsSilent ((now, m) ∷ ms) d free =
      let d' = on_ws_message lower now m d in
      let first = on_ws_message-IsSilent now m d free in
      then_still d d' (on_messages lower ms d') first
        (on_messages-IsSilent ms d' (silent-IsUnrouted d d' first free))
