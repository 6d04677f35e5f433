-- ===== src/Settings/Gate.antt =====
-- `EligibilityGate` (backend/orchestrator/eligibility_gate.py). `show` is Python's `str` of an event.
-- `Credentials` says whether there is a credential store, and whether it has those for trading.
use polyfast.Base.{
  String, Bool, true, false, not, ◌&&◌, ◌≡◌, Option, none, some, List, [], ◌∷◌, if◌then◌else◌,
  str_eq, refl, arith, ◌∙◌, sym, ap, Option-cases, Bool-cases, inl, inr,
}
use polyfast.Base.Dict.{Dict, put}
use polyfast.Base.Lists.{select}
use polyfast.Float.{Float}
use polyfast.Registry.Service.{DiscoveredEvent}
use polyfast.Settings.Coin.{is_configured, is_trade_eligible}
use polyfast.Settings.Store.{Store, get_settings}

-- `_credential_store` is None, or has the credentials for trading, or lacks them.
pub data Credentials : Type 0 where
  no_store with_credentials without_credentials : Credentials

pub record EligibilityResult : Type 0 where
  pub eligible : List DiscoveredEvent
  pub ineligible : List DiscoveredEvent
  pub reasons : Dict String

-- The gate is shut: there is a store, the mode is not paper, and the credentials are missing.
abbrev pub is_shut : Credentials → Bool → Bool
is_shut without_credentials paper_mode = not paper_mode
is_shut _ paper_mode = false

abbrev pub nothing_yet : EligibilityResult
nothing_yet = record { eligible = []; ineligible = []; reasons = [] }

select-none : (events : List DiscoveredEvent) → select (λ e. false) events ≡ []
unfolding select
select-none [] = refl
select-none (e ∷ es) = select-none es

select-all : (events : List DiscoveredEvent) → select (λ e. true) events ≡ events
unfolding select
select-all [] = refl
select-all (e ∷ es) = ap (λ l. e ∷ l) (select-all es)

module _ (show : DiscoveredEvent → String) where
  -- The name of an event whose credentials are missing.
  abbrev pub name_of : DiscoveredEvent → String
  name_of e = if str_eq e.asset "" then show e else e.asset

  unfoldable pub no_credentials : List DiscoveredEvent → Dict String → Dict String
  no_credentials [] reasons = reasons
  no_credentials (e ∷ es) reasons = no_credentials es (put reasons (name_of e) "no_credentials")

module _ {N : Type 0} ⦃f : Float N⦄ (upper : String → String)
    (show : DiscoveredEvent → String) where
  -- Why an event is turned away, as the name in `reasons` and the reason.
  unfoldable pub objection : Store N → DiscoveredEvent → Option (String × String)
  objection s e =
      if str_eq e.asset ""
      then some (show e, "asset_unknown")
      else (elim (get_settings upper e.asset s) [
        | none ↦ some (e.asset, "no_settings")
        | some c ↦
            if not c.coin_enabled
            then some (e.asset, "coin_disabled")
            else if not (is_configured c)
            then some (e.asset, "config_incomplete")
            else if not (is_trade_eligible c)
            then some (e.asset, "not_eligible")
            else none
      ])

  -- The loop, with the reasons as they grow.
  unfoldable pub sort_events : Store N → List DiscoveredEvent → Dict String → EligibilityResult
  sort_events s [] reasons = record { eligible = []; ineligible = []; reasons = reasons }
  sort_events s (e ∷ es) reasons = elim (objection s e) [
    | none ↦ let rest = sort_events s es reasons in record rest { eligible = e ∷ rest.eligible }
    | some (name, reason) ↦
        let rest = sort_events s es (put reasons name reason) in
        record rest { ineligible = e ∷ rest.ineligible }
  ]

  -- `filter`
  unfoldable pub filter_events :
      Credentials → Bool → Store N → List DiscoveredEvent → EligibilityResult
  filter_events credentials paper_mode s events =
      if is_shut credentials paper_mode
      then record { eligible = []; ineligible = events; reasons = no_credentials show events [] }
      else sort_events s events []

  -- The event's coin is known, switched on and fully configured.
  unfoldable pub is_tradable : Store N → DiscoveredEvent → Bool
  is_tradable s e =
      not (str_eq e.asset "")
      && (elim (get_settings upper e.asset s) [ none ↦ false | some c ↦ is_trade_eligible c ])

  objection-none :
      (s : Store N) (e : DiscoveredEvent)
      → is_tradable s e ≡ (elim (objection s e) [ none ↦ true | some why ↦ false ])
  unfolding objection is_tradable
  objection-none s e = ground arith

  sort_events_lem :
      (s : Store N) (events : List DiscoveredEvent) (reasons : Dict String)
      → let result = sort_events s events reasons in
        (result.eligible ≡ select (is_tradable s) events)
        × (result.ineligible ≡ select (λ e. not (is_tradable s e)) events)
  unfolding sort_events select
  sort_events_lem s [] reasons = (refl, refl)
  sort_events_lem s (e ∷ es) reasons = elim (Option-cases (objection s e)) [
    | inl fine ↦
        let rest = sort_events_lem s es reasons in
        let may : is_tradable s e ≡ true = objection-none s e ∙ rw fine refl in
        rw (fine, sort_events) (ground (arith, rest.0), ground (arith, rest.1))
    | inr ((name, reason), why) ↦
        let rest = sort_events_lem s es (put reasons name reason) in
        let may : is_tradable s e ≡ false = objection-none s e ∙ rw why refl in
        rw (why, sort_events) (ground (arith, rest.0), ground (arith, rest.1))
  ]

  -- The eligible events are those of coins that are known, switched on and fully configured, in
  -- their order, and the others are the ineligible ones; where the gate is shut, none is eligible.
  pub filter_events_lem :
      (credentials : Credentials) (paper_mode : Bool) (s : Store N) (events : List DiscoveredEvent)
      → let result = filter_events credentials paper_mode s events in
        let may : DiscoveredEvent → Bool =
          λ e. not (is_shut credentials paper_mode) && is_tradable s e in
        (result.eligible ≡ select may events)
        × (result.ineligible ≡ select (λ e. not (may e)) events)
  unfolding filter_events
  filter_events_lem credentials paper_mode s events =
      elim (Bool-cases (is_shut credentials paper_mode)) [
        | inl shut ↦ rw shut (sym (select-none events), sym (select-all events))
        | inr ajar ↦ rw ajar (sort_events_lem s events [])
      ]
