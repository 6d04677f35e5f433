-- ===== src/Discovery/Engine/Matches.antt =====
-- A scan gives the matching events of the first 500, or raises.
use polyfast.Base.{
  ℕ, String, Bool, true, false, ◌&&◌, ◌≡◌, refl, none, some, List, [], ◌∷◌, if◌then◌else◌, arith,
  Option-cases, inl, inr, str_eq,
}
use polyfast.Base.Lists.{length, select, count_if, any}
use polyfast.Base.Sets.{codes}
use polyfast.Orchestrator.Slots.{is_current_or_upcoming}
use polyfast.Registry.Service.{DiscoveredEvent}
use polyfast.Discovery.Parse.{RawEvent, from_api_event, is_infix}
use polyfast.Discovery.Engine.{PageReply, matches_criteria, match_event, match_events, scan}
use polyfast.Discovery.Engine.Pages.{take, drop, fetch_events-take}

-- A five-minute crypto event.
abbrev pub is_target : DiscoveredEvent → Bool
is_target e = str_eq e.category "crypto" && str_eq e.duration "5m"

-- Such an event whose question is null, which cannot be matched.
abbrev pub is_unmatchable : DiscoveredEvent → Bool
is_unmatchable e = is_target e && (elim e.question [ none ↦ true | some q ↦ false ])

module _ (lower upper : String → String) (now : ℕ) where
  -- A five-minute crypto event that asks "up or down" and is live or about to start.
  abbrev pub is_match : DiscoveredEvent → Bool
  is_match e = is_target e && (elim e.question [
    | none ↦ false
    | some q ↦ is_infix (codes "up or down") (codes (lower q)) && is_current_or_upcoming now e.slug
  ])

  abbrev pub is_unreadable : RawEvent → Bool
  is_unreadable raw = elim (from_api_event lower upper now raw) [ none ↦ true | some e ↦ false ]

  -- The events that can be read.
  unfoldable pub parsed : List RawEvent → List DiscoveredEvent
  parsed [] = []
  parsed (raw ∷ raws) =
      let rest = parsed raws in
      elim (from_api_event lower upper now raw) [ none ↦ rest | some e ↦ e ∷ rest ]

  matches_criteria_lem :
      (e : DiscoveredEvent)
      → matches_criteria lower upper now e ≡ (if is_unmatchable e then none else some (is_match e))
  unfolding matches_criteria
  matches_criteria_lem e = ground arith

  match_events-select :
      (raws : List RawEvent)
      → match_events lower upper now raws ≡ (
          if any is_unmatchable (parsed raws)
          then none
          else some (select is_match (parsed raws), count_if is_unreadable raws))
  unfolding match_events match_event parsed select any count_if
  match_events-select [] = refl
  match_events-select (raw ∷ raws) =
      let same = match_events-select raws in
      elim (Option-cases (from_api_event lower upper now raw)) [
        | inl broken ↦ rw (same, broken, match_events, parsed) (ground arith)
        | inr (e, read) ↦
            rw (same, read, match_events, parsed) (ground (arith, matches_criteria_lem e))
      ]

  -- Where the API serves the parts of a list that it is asked for by limit and offset, a scan reads its
  -- first 500 events. If a five-minute crypto event among them has a null question, an exception
  -- leaves the scan. Otherwise it succeeds and gives the five-minute crypto events that ask "up or
  -- down" and are live or about to start, in their order, and counts the events that cannot be read
  -- as failures.
  pub scan-select :
      (pages : ℕ → ℕ → PageReply RawEvent) (all : List RawEvent)
      → ((limit offset : ℕ) → pages limit offset ≡ some (take limit (drop offset all)))
      → let raws = take 500 all in
        let seen = parsed raws in
        scan lower upper now pages ≡ (
          if any is_unmatchable seen
          then none
          else some (record {
            events = select is_match seen;
            total_scanned = length raws;
            total_matched = length (select is_match seen);
            parse_failures = count_if is_unreadable raws;
            success = true;
          }))
  unfolding scan
  scan-select pages all h =
      rw (fetch_events-take pages all h, scan)
        (rw (match_events-select (take 500 all)) (ground arith))
