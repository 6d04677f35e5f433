-- ===== src/Orchestrator/Events.antt =====
-- `Orchestrator._handle_discovered_events` (backend/orchestrator/wiring.py): from discovered events to
-- prices, subscriptions and requests for the price to beat. The requests are the list of started
-- tasks. `parse` reads an event's `outcomePrices`, `show` is `str` of an event.
pub mod Gathering
pub mod Live
mod Tests
use polyfast.Base.{
  ℕ, ◌+◌, String, Bool, true, false, not, ◌&&◌, ◌||◌, Option, none, some, List, [], ◌∷◌, ◌++◌,
  if◌then◌else◌, str_eq, is_some,
}
use polyfast.Base.Dict.{Dict, get, put}
use polyfast.Float.{Float}
use polyfast.Registry.Service.{DiscoveredEvent}
use polyfast.Settings.Store.{Store}
use polyfast.Settings.Gate.{Credentials, filter_events}
use polyfast.Ptb.Record.{is_locked}
use polyfast.Ptb.Fetcher.{PtbRecords}
use polyfast.Market.LivePrice.{Pipeline, OutcomePrices, update_from_gamma}
use polyfast.Market.CoinPrices.{set_coins}
use polyfast.Market.Subscriptions.{EventData, Subscriptions, update_subscriptions}
use polyfast.Orchestrator.Slots.{slug_start, is_live, slot_seconds}

-- What the first loop gathers.
pub record Gathered : Type 0 where
  pub eligible_assets : List String
  pub event_map : Dict EventData
  pub current_slot_cids : Dict String

unfoldable pub event_data : DiscoveredEvent → EventData
event_data e = record {
  condition_id = e.condition_id;
  token_ids = e.clob_token_ids;
  sides = e.outcomes;
  slug = e.slug;
}

-- A turn of the first loop.
unfoldable pub gather : ℕ → DiscoveredEvent → Gathered → Gathered
gather now e g = if str_eq e.asset "" then g else record {
  eligible_assets = g.eligible_assets ++ e.asset ∷ [];
  event_map =
      if is_live now e.slug
      then put g.event_map e.asset (event_data e)
      else if is_some (get g.event_map e.asset)
      then g.event_map
      else put g.event_map e.asset (event_data e);
  current_slot_cids =
      if is_live now e.slug
      then put g.current_slot_cids e.asset e.condition_id
      else g.current_slot_cids;
}

unfoldable pub gather_all : ℕ → List DiscoveredEvent → Gathered → Gathered
gather_all now [] g = g
gather_all now (e ∷ es) g = gather_all now es (gather now e g)

abbrev pub nothing_gathered : Gathered
nothing_gathered = record { eligible_assets = []; event_map = []; current_slot_cids = [] }

-- A call of `fetch_ptb_with_retry` that is started as a task.
pub record PtbTask : Type 0 where
  pub condition_id : String
  pub asset : String
  pub slug : String
  pub event_end : ℕ

-- The last loop: a request for each live event whose price is not locked and whose slug is known.
unfoldable pub ptb_tasks :
    {N : Type 0} → ℕ → Dict EventData → PtbRecords N → Dict String → List PtbTask
ptb_tasks now events ptb [] = []
ptb_tasks now events ptb ((asset, cid) ∷ d) =
    let rest = ptb_tasks now events ptb d in
    let slug : String = elim (get events asset) [ none ↦ "" | some e ↦ e.slug ] in
    let locked : Bool = elim (get ptb cid) [ none ↦ false | some r ↦ is_locked r ] in
    if locked || str_eq slug ""
    then rest
    else record {
      condition_id = cid;
      asset = asset;
      slug = slug;
      event_end = elim (slug_start slug) [
        | none ↦ now + slot_seconds
        | some start ↦ start + slot_seconds
      ];
    }
      ∷ rest

-- The parts of the orchestrator that the handler works on. `unix` is the time in whole seconds.
pub record Chain (N : Type 0) : Type 0 where
  pub paused : Bool
  pub credentials : Credentials
  pub paper_mode : Bool
  pub settings : Store N
  pub pipeline : Pipeline N
  pub subscriptions : Subscriptions N
  pub ptb : PtbRecords N
  pub tasks : List PtbTask

module _ {N : Type 0} ⦃f : Float N⦄ (parse : String → OutcomePrices N) where
  -- The second loop: the prices that the API gave.
  unfoldable pub seed_prices : ℕ → List DiscoveredEvent → Pipeline N → Pipeline N
  seed_prices now [] p = p
  seed_prices now (e ∷ es) p = seed_prices now es (
      if str_eq e.condition_id "" || str_eq e.asset "" || str_eq e.outcome_prices ""
      then p
      else update_from_gamma e.condition_id e.asset (parse e.outcome_prices) f.zero_f now p)

module _ {N : Type 0} ⦃f : Float N⦄ (upper : String → String) (show : DiscoveredEvent → String)
    (parse : String → OutcomePrices N) where
  -- The handler from the eligible events on; `went` says whether the RTDS client's send returns.
  unfoldable pub chain_events : ℕ → ℕ → Bool → List DiscoveredEvent → Chain N → Chain N
  chain_events now unix went events c =
      let g = gather_all unix events nothing_gathered in
      let s = update_subscriptions upper g.eligible_assets g.event_map went c.subscriptions in
      record c {
        pipeline = seed_prices parse now events c.pipeline;
        subscriptions = record s { coin_prices = set_coins upper g.eligible_assets s.coin_prices };
        tasks = c.tasks ++ ptb_tasks unix g.event_map c.ptb g.current_slot_cids;
      }

  -- The return without an eligible event.
  unfoldable pub after_filter : ℕ → ℕ → Bool → List DiscoveredEvent → Chain N → Chain N
  after_filter now unix went [] c = c
  after_filter now unix went (e ∷ es) c = chain_events now unix went (e ∷ es) c

  -- `_handle_discovered_events`
  unfoldable pub handle_discovered_events : ℕ → ℕ → Bool → List DiscoveredEvent → Chain N → Chain N
  handle_discovered_events now unix went events c =
      let result = filter_events upper show c.credentials c.paper_mode c.settings events in
      if c.paused then c else after_filter now unix went result.eligible c
