-- ===== src/Discovery/Engine.antt =====
-- `DiscoveryEngine` (backend/discovery/engine.py): the pages of the API, and the events that match. The
-- API's replies are arguments; a result's incident and texts are left out.
pub mod Pages
pub mod Matches
use polyfast.Base.{
  ℕ, zero, suc, ◌+◌, ◌*◌, String, Bool, true, false, not, ◌&&◌, Option, none, some, List, [], ◌∷◌,
  ◌++◌, if◌then◌else◌, ltb, str_eq, one_if,
}
use polyfast.Base.Lists.{length, select, count_if}
use polyfast.Base.Sets.{codes}
use polyfast.Registry.Service.{DiscoveredEvent}
use polyfast.Orchestrator.Slots.{is_current_or_upcoming}
use polyfast.Discovery.Parse.{RawEvent, from_api_event, is_infix}

-- The events of a page, none where the request or the reading of its reply raises.
abbrev pub PageReply : Type 0 → Type 0
PageReply A = Option (List A)

abbrev pub page_size : ℕ
page_size = 100

abbrev pub max_pages : ℕ
max_pages = 5

module _ {A : Type 0} where
  -- The loop of `_fetch_events`: the pages left, and the number of the next one. The API is asked with
  -- a limit and an offset. An empty page and
  -- one that is not full are the last.
  unfoldable pub fetch_pages : (ℕ → ℕ → PageReply A) → ℕ → ℕ → ℕ → PageReply A
  fetch_pages pages size zero n = some []
  fetch_pages pages size (suc left) n =
      let rest = fetch_pages pages size left (suc n) in
      elim (pages size (n * size)) [
        | none ↦ none
        | some page ↦
            if ltb (length page) size
            then some page
            else (elim rest [ none ↦ none | some more ↦ some (page ++ more) ])
      ]

  -- `_fetch_events`
  unfoldable pub fetch_events : (ℕ → ℕ → PageReply A) → PageReply A
  fetch_events pages = fetch_pages pages page_size max_pages 0

pub record DiscoveryResult : Type 0 where
  pub events : List DiscoveredEvent
  pub total_scanned : ℕ
  pub total_matched : ℕ
  pub parse_failures : ℕ
  pub success : Bool

module _ (lower upper : String → String) (now : ℕ) where
  -- `_matches_criteria`, none where `event.question.lower` raises.
  unfoldable pub matches_criteria : DiscoveredEvent → Option Bool
  matches_criteria e =
      if not (str_eq e.category "crypto")
      then some false
      else if not (str_eq e.duration "5m")
      then some false
      else (elim e.question [
        | none ↦ none
        | some question ↦ some (
            is_infix (codes "up or down") (codes (lower question))
            && is_current_or_upcoming now e.slug)
      ])

  -- A turn of the loop of `scan`, with what the later turns give.
  unfoldable pub match_event :
      RawEvent → Option (List DiscoveredEvent × ℕ) → Option (List DiscoveredEvent × ℕ)
  match_event raw none = none
  match_event raw (some (matched, failures)) = elim (from_api_event lower upper now raw) [
    | none ↦ some (matched, failures + 1)
    | some e ↦ (elim (matches_criteria e) [
      | none ↦ none
      | some fits ↦ some (if fits then e ∷ matched else matched, failures)
    ])
  ]

  -- The loop of `scan`: the matching events and the number of failures, none where it raises.
  unfoldable pub match_events : List RawEvent → Option (List DiscoveredEvent × ℕ)
  match_events [] = some ([], 0)
  match_events (raw ∷ raws) = match_event raw (match_events raws)

  abbrev pub scan_result : ℕ → List DiscoveredEvent × ℕ → DiscoveryResult
  scan_result total (matched, failures) = record {
    events = matched;
    total_scanned = total;
    total_matched = length matched;
    parse_failures = failures;
    success = true;
  }

  -- `scan`, none where an exception leaves it. The fetch stands in a try, the loop does not.
  unfoldable pub scan : (ℕ → ℕ → PageReply RawEvent) → Option DiscoveryResult
  scan pages = elim (fetch_events pages) [
    | none ↦ some (record {
      events = [];
      total_scanned = 0;
      total_matched = 0;
      parse_failures = 0;
      success = false;
    })
    | some raws ↦ (elim (match_events raws) [
      | none ↦ none
      | some found ↦ some (scan_result (length raws) found)
    ])
  ]
