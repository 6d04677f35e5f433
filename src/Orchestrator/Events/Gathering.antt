-- ===== src/Orchestrator/Events/Gathering.antt =====
-- What the first loop of the handler gathers of an asset with a live event.
use polyfast.Base.{
  ℕ, String, true, false, not, ◌&&◌, ◌||◌, ◌≡◌, inl, inr, ap, ◌∙◌, Option, none, some, List, [],
  ◌∷◌, is_some, if◌then◌else◌, str_eq, eq_iff, eq_refl, arith, Bool-cases, Option-cases,
}
use polyfast.Base.Dict.{get, get-put}
use polyfast.Base.Sets.{contains, contains-append}
use polyfast.Registry.Service.{DiscoveredEvent}
use polyfast.Market.Subscriptions.{EventData}
use polyfast.Orchestrator.Slots.{is_live}
use polyfast.Orchestrator.Events.{Gathered, event_data, gather, gather_all}

-- The last of the events of an asset that is live.
unfoldable pub last_live : ℕ → String → List DiscoveredEvent → Option DiscoveredEvent
last_live now a [] = none
last_live now a (e ∷ es) =
    let later = last_live now a es in
    let this = str_eq e.asset a && is_live now e.slug in
    elim later [ some x ↦ some x | none ↦ if this then some e else none ]

-- One turn of the first loop, seen at one asset.
get-gather :
    (now : ℕ) (a : String) (x : DiscoveredEvent) (g : Gathered)
    → str_eq a "" ≡ false
    → get (gather now x g).event_map a ≡ (
        if str_eq x.asset a
        then (if is_live now x.slug || not (is_some (get g.event_map a))
            then some (event_data x)
            else get g.event_map a)
        else get g.event_map a)
unfolding gather
get-gather now a x g named = elim (Bool-cases (str_eq x.asset a)) [
  | inl same ↦
      let e : x.asset ≡ a = (eq_iff x.asset a).0 same in
      rw e (ground (arith, get-put g.event_map a a (event_data x), eq_refl a))
  | inr other ↦ ground (arith, get-put g.event_map x.asset a (event_data x))
]

-- The entry of an asset stays where no live event of it follows.
gather_all-kept :
    (now : ℕ) (a : String) (es : List DiscoveredEvent) (g : Gathered) (d : EventData)
    → str_eq a "" ≡ false
    → last_live now a es ≡ none
    → get g.event_map a ≡ some d
    → get (gather_all now es g).event_map a ≡ some d
unfolding last_live gather_all
gather_all-kept now a [] g d named h k = k
gather_all-kept now a (x ∷ es) g d named h k = elim (Option-cases (last_live now a es)) [
  | inr (y, later) ↦ absurd (ground arith)
  | inl last ↦
      gather_all-kept now a es (gather now x g) d named last
        (ground (arith, get-gather now a x g named))
]

-- An asset with a live event gets that event's entry.
pub gather_all-live :
    (now : ℕ) (a : String) (es : List DiscoveredEvent) (g : Gathered) (e : DiscoveredEvent)
    → str_eq a "" ≡ false
    → last_live now a es ≡ some e
    → get (gather_all now es g).event_map a ≡ some (event_data e)
unfolding last_live gather_all
gather_all-live now a [] g e named h = absurd (ground arith)
gather_all-live now a (x ∷ es) g e named h = elim (Option-cases (last_live now a es)) [
  | inr (y, later) ↦ gather_all-live now a es (gather now x g) e named (ground arith)
  | inl last ↦
      let x_is : x ≡ e = ground arith in
      let first : get (gather now x g).event_map a ≡ some (event_data x) =
        ground (arith, get-gather now a x g named) in
      gather_all-kept now a es (gather now x g) (event_data e) named last
        (first ∙ ap (λ y. some (event_data y)) x_is)
]

gather_all-assets :
    (now : ℕ) (a : String) (es : List DiscoveredEvent) (g : Gathered)
    → contains g.eligible_assets a ≡ true
    → contains (gather_all now es g).eligible_assets a ≡ true
unfolding gather_all gather
gather_all-assets now a [] g h = h
gather_all-assets now a (x ∷ es) g h =
    gather_all-assets now a es (gather now x g)
      (ground (arith, contains-append g.eligible_assets (x.asset ∷ []) a))

-- An asset with a live event is among the eligible ones.
pub gather_all-contains :
    (now : ℕ) (a : String) (es : List DiscoveredEvent) (g : Gathered) (e : DiscoveredEvent)
    → str_eq a "" ≡ false
    → last_live now a es ≡ some e
    → contains (gather_all now es g).eligible_assets a ≡ true
unfolding last_live gather_all contains gather
gather_all-contains now a [] g e named h = absurd (ground arith)
gather_all-contains now a (x ∷ es) g e named h = elim (Option-cases (last_live now a es)) [
  | inr (y, later) ↦ gather_all-contains now a es (gather now x g) e named (ground arith)
  | inl last ↦
      let same : x.asset ≡ a = ground (arith, eq_iff x.asset a) in
      gather_all-assets now a es (gather now x g)
        (rw same (ground (arith, contains-append g.eligible_assets (a ∷ []) a, eq_refl a)))
]
