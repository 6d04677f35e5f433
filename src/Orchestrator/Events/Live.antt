-- ===== src/Orchestrator/Events/Live.antt =====
-- The live event of an asset is the one that is traded.
use polyfast.Base.{
  ℕ, String, Bool, true, false, ◌≡◌, ◌≢◌, refl, ap, ◌∙◌, subst, Option, none, some, List, [], ◌∷◌,
  map, str_eq, eq_iff, arith, if-cases,
}
use polyfast.Base.Dict.{get}
use polyfast.Base.Sets.{contains, contains-map}
use polyfast.Float.{Float}
use polyfast.Registry.Service.{DiscoveredEvent}
use polyfast.Settings.Gate.{filter_events}
use polyfast.Market.Bridge.{TokenRoute}
use polyfast.Market.LivePrice.{OutcomePrices}
use polyfast.Market.Subscriptions.{event_of, is_rotated, update_subscriptions}
use polyfast.Market.Subscriptions.Routed.{IsRouted}
use polyfast.Market.Subscriptions.InStep.{IsInStep}
use polyfast.Market.Subscriptions.Active.{next_event, update_subscriptions-IsRouted}
use polyfast.Orchestrator.Events.{
  event_data, gather_all, nothing_gathered, Chain, chain_events, after_filter,
  handle_discovered_events,
}
use polyfast.Orchestrator.Events.Gathering.{last_live, gather_all-live, gather_all-contains}

-- A condition replaces another one that is not empty.
next_event-replaces :
    (cid : String) (old : Option String)
    → str_eq cid "" ≡ false
    → old ≢ some ""
    → next_event cid old ≡ cid
unfolding is_rotated
next_event-replaces cid none h k = refl
next_event-replaces cid (some o) h k =
    ground (arith, eq_iff o "", eq_iff cid o, λ (e : o ≡ ""). k (ap some e))

module _ {N : Type 0} where
  -- What holds of the subscriptions between two runs of the handler.
  pub record IsOrderly (c : Chain N) : Type 0 where
    pub routed : IsRouted c.subscriptions
    pub in_step : IsInStep c.subscriptions

  -- The asset trades this event: it is the active one, and every token that leads to the asset is one
  -- of the event's.
  pub record Trades (a cid : String) (c : Chain N) : Type 0 where
    pub is_active : get c.subscriptions.active_events a ≡ some cid
    pub owned :
        (tid : String) (r : TokenRoute)
        → get c.subscriptions.bridge.token_routes tid ≡ some r
        → r.asset ≡ a
        → r.condition_id ≡ cid

module _ {N : Type 0} ⦃f : Float N⦄ (upper : String → String) (show : DiscoveredEvent → String)
    (parse : String → OutcomePrices N) (now unix : ℕ) (went : Bool) where
  chain_events-Trades :
      (events : List DiscoveredEvent) (c : Chain N) (e : DiscoveredEvent) (a : String)
      → IsOrderly c
      → last_live unix a events ≡ some e
      → str_eq a "" ≡ false
      → upper a ≡ a
      → str_eq e.condition_id "" ≡ false
      → get c.subscriptions.active_events a ≢ some ""
      → Trades a e.condition_id (chain_events upper show parse now unix went events c)
        × IsOrderly (chain_events upper show parse now unix went events c)
  unfolding chain_events event_of event_data
  chain_events-Trades events c e a o live named up cid old =
      let g = gather_all unix events nothing_gathered in
      let (acts, routed, in_step) =
        update_subscriptions-IsRouted upper g.event_map g.eligible_assets went c.subscriptions
          o.routed o.in_step in
      let entry = gather_all-live unix a events nothing_gathered e named live in
      let among : contains (map upper g.eligible_assets) a ≡ true =
        subst (λ b. contains (map upper g.eligible_assets) b ≡ true) up
          (contains-map upper g.eligible_assets a
            (gather_all-contains unix a events nothing_gathered e named live)) in
      let its_cid : (event_of g.event_map a).condition_id ≡ e.condition_id =
        rw (entry, event_of) refl in
      let is_active : get
            (update_subscriptions upper g.eligible_assets g.event_map went
              c.subscriptions).active_events
            a
          ≡ some e.condition_id =
        acts a
        ∙ rw (among, its_cid)
            (ap some
              (next_event-replaces e.condition_id (get c.subscriptions.active_events a) cid old)) in
      (
        record { is_active = is_active; owned = λ tid r h at. ground (arith, routed tid r h) },
        record { routed = routed; in_step = in_step },
      )

  after_filter-Trades :
      (events : List DiscoveredEvent) (c : Chain N) (e : DiscoveredEvent) (a : String)
      → IsOrderly c
      → last_live unix a events ≡ some e
      → str_eq a "" ≡ false
      → upper a ≡ a
      → str_eq e.condition_id "" ≡ false
      → get c.subscriptions.active_events a ≢ some ""
      → Trades a e.condition_id (after_filter upper show parse now unix went events c)
        × IsOrderly (after_filter upper show parse now unix went events c)
  unfolding after_filter last_live
  after_filter-Trades [] c e a o live named up cid old = absurd (ground arith)
  after_filter-Trades (x ∷ xs) c e a o live named up cid old =
      chain_events-Trades (x ∷ xs) c e a o live named up cid old

  -- Current-slot ownership. Say that every token's route is one of the active event of its asset, and
  -- an RTDS client tracks exactly the tokens with routes. Where the handler is not paused and an
  -- asset, in upper case, has an eligible event that is live and has a condition, and was not
  -- subscribed to an event without a condition, the last such event is the active one afterwards,
  -- every token that leads to the asset is one of that event's, and routes and client agree as
  -- before.
  pub handle_discovered_events-Trades :
      (events : List DiscoveredEvent) (c : Chain N) (e : DiscoveredEvent) (a : String)
      → IsOrderly c
      → last_live unix a
          (filter_events upper show c.credentials c.paper_mode c.settings events).eligible
        ≡ some e
      → c.paused ≡ false
      → str_eq a "" ≡ false
      → upper a ≡ a
      → str_eq e.condition_id "" ≡ false
      → get c.subscriptions.active_events a ≢ some ""
      → let c' = handle_discovered_events upper show parse now unix went events c in
        Trades a e.condition_id c' × IsOrderly c'
  unfolding handle_discovered_events
  handle_discovered_events-Trades events c e a o live awake named up cid old =
      let eligible =
        (filter_events upper show c.credentials c.paper_mode c.settings events).eligible in
      if-cases (λ (c' : Chain N). Trades a e.condition_id c' × IsOrderly c') c.paused c
        (after_filter upper show parse now unix went eligible c) (λ asleep. absurd (ground arith))
        (λ active. after_filter-Trades eligible c e a o live named up cid old)
