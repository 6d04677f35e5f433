-- ===== src/Discovery/Tests.antt =====
-- A scan of one page, and a slot that is left without an event.
use polyfast.Base.{
  if◌then◌else◌, ℕ, zero, suc, ◌<◌, ◌≡◌, true, none, some, List, [], ◌∷◌, refl, arith,
}
use polyfast.Base.Lists.{length, select, any, count_if}
use polyfast.Base.Sets.{contains}
use polyfast.Registry.Service.{DiscoveredEvent}
use polyfast.Ptb.Fetcher.{wait_of}
use polyfast.Discovery.Parse.{
  RawEvent, tag_dict, from_api_event, market_event, event_from, extract_category, tag_slugs,
  extract_duration, duration_slug, extract_asset,
}
use polyfast.Discovery.Engine.{
  PageReply, scan, fetch_events, fetch_pages, match_events, match_event, matches_criteria,
}
use polyfast.Discovery.Engine.Pages.{take, drop}
use polyfast.Discovery.Engine.Matches.{parsed, is_match, is_unmatchable, is_unreadable, scan-select}
use polyfast.Discovery.Loop.{scanned, raised, Scanning, ScanState, scan_with_retry, loop_turn}
use polyfast.Discovery.Loop.Slot.{
  Scanned, slot_of, NextTurn, scan_with_retry-Scanned, loop_turn-skips,
}

abbrev raw : RawEvent
raw = record {
  title = some "Bitcoin up or down";
  slug = some "btc-updown-5m-1770000000";
  tags = tag_dict "crypto" ∷ tag_dict "5m" ∷ [];
  end_date = some (some 1770000300);
  market = some (record {
    condition_id = "c1";
    question = none;
    clob_token_ids = "k1" ∷ "k2" ∷ [];
    outcomes = "Up" ∷ "Down" ∷ [];
    outcome_prices = "";
  });
}

abbrev all_events : List RawEvent
all_events = raw ∷ record raw { market = none } ∷ []

abbrev served : ℕ → ℕ → PageReply RawEvent
served limit offset = some (take limit (drop offset all_events))

scan-select_example :
    let raws = take 500 all_events in
    let seen = parsed (λ s. s) (λ s. s) 1770000100 raws in
    let matching = select (is_match (λ s. s) (λ s. s) 1770000100) seen in
    scan (λ s. s) (λ s. s) 1770000100 served ≡ (
      if any is_unmatchable seen
      then none
      else some (record {
        events = matching;
        total_scanned = length raws;
        total_matched = length matching;
        parse_failures = count_if (is_unreadable (λ s. s) (λ s. s) 1770000100) raws;
        success = true;
      }))
scan-select_example =
    scan-select (λ s. s) (λ s. s) 1770000100 served all_events (λ limit offset. refl)

-- One event with a null question ends the scan.
abbrev unasked : ℕ → ℕ → PageReply RawEvent
unasked limit offset = some (
    record raw {
      market = some (record {
        condition_id = "c1";
        question = some none;
        clob_token_ids = [];
        outcomes = [];
        outcome_prices = "";
      });
    }
    ∷ [])

scan-unasked : scan (λ s. s) (λ s. s) 1770000100 unasked ≡ none
unfolding scan fetch_events fetch_pages match_events match_event from_api_event market_event
    event_from extract_category tag_slugs extract_duration duration_slug extract_asset
    matches_criteria contains
scan-unasked = refl

-- The first scans raise or find nothing.
abbrev scanning : Scanning
scanning = record {
  schedule = 2 ∷ 4 ∷ 8 ∷ 16 ∷ [];
  steady = 10;
  replies = λ n. elim n [ zero ↦ raised | suc m ↦ scanned [] ];
  latency = λ n. 1;
  lag = λ n left. 0;
}

abbrev start : ScanState
start = record { scan_count = 0; retry_count = 0; events_found = 0; now = 1770000000 }

waits : (n : ℕ) → 0 < wait_of scanning.schedule scanning.steady n
unfolding wait_of
waits zero = ground arith
waits (suc zero) = ground arith
waits (suc (suc zero)) = ground arith
waits (suc (suc (suc zero))) = ground arith
waits (suc (suc (suc (suc n)))) = ground arith

scan_with_retry-Scanned_example :
    (events : List DiscoveredEvent) × (s : ScanState) × (scan_with_retry 301 scanning
        (slot_of start)
        start
      ≡ some (events, s))
    × Scanned scanning (slot_of start) events s
scan_with_retry-Scanned_example = scan_with_retry-Scanned scanning waits start

loop_turn-skips_example :
    (events : List DiscoveredEvent) × (s' : ScanState) × (loop_turn 301 scanning start
      ≡ some (events, s'))
    × NextTurn scanning waits start events s'
loop_turn-skips_example = loop_turn-skips scanning waits start
