-- ===== src/Discovery/Loop.antt =====
-- `DiscoveryLoop` (backend/orchestrator/discovery_loop.py): the scans of a slot with their retries, and
-- the wait for the next slot. Times are whole Unix seconds. The scans' replies are arguments,
-- numbered by the attempt; stopping the loop cancels its task and is left out. What is done
-- with the events that were found is `_sync_to_registry` and the callback, whose exceptions are
-- caught: here they are the result.
pub mod Slot
use polyfast.Base.{
  ℕ, zero, suc, ◌+◌, ◌*◌, ◌/◌, Bool, true, false, not, Option, none, some, List, [], ◌∷◌,
  if◌then◌else◌, ◌==◌,
}
use polyfast.Base.Lists.{length}
use polyfast.Registry.Service.{DiscoveredEvent}
use polyfast.Ptb.Fetcher.{wait_of}
use polyfast.Orchestrator.Slots.{current_slot_start, slot_remaining}

-- What `scan` gives: events, maybe none, or an exception.
pub data ScanReply : Type 0 where
  scanned : List DiscoveredEvent → ScanReply
  raised : ScanReply

abbrev pub events_of : ScanReply → List DiscoveredEvent
events_of (scanned events) = events
events_of raised = []

-- The loop's settings, the replies, how long each scan takes with what follows it, and how much longer
-- than a second each sleep of a second takes, by the attempt and the seconds left of its wait.
pub record Scanning : Type 0 where
  pub schedule : List ℕ
  pub steady : ℕ
  pub replies : ℕ → ScanReply
  pub latency : ℕ → ℕ
  pub lag : ℕ → ℕ → ℕ

-- The loop's counters and the time.
pub record ScanState : Type 0 where
  pub scan_count : ℕ
  pub retry_count : ℕ
  pub events_found : ℕ
  pub now : ℕ

-- The time is in the slot.
abbrev pub in_slot : ℕ → ℕ → Bool
in_slot slot now = current_slot_start now == slot

-- The wait before a retry, second by second; false where the slot has ended meanwhile.
unfoldable pub wait_in_slot : Scanning → ℕ → ℕ → ℕ → ℕ → Bool × ℕ
wait_in_slot c attempt slot zero now = (true, now)
wait_in_slot c attempt slot (suc left) now =
    let woken = now + 1 + c.lag attempt left in
    let rest = wait_in_slot c attempt slot left woken in
    if in_slot slot woken then rest else (false, woken)

-- The state after an attempt's scan that found these events.
unfoldable pub after_scan : List DiscoveredEvent → ℕ → ScanState → ScanState
after_scan [] now s = record s {
  scan_count = s.scan_count + 1;
  retry_count = s.retry_count + 1;
  now = now;
}
after_scan (e ∷ es) now s = record s {
  scan_count = s.scan_count + 1;
  retry_count = 0;
  events_found = length (e ∷ es);
  now = now;
}

abbrev pub is_found : List DiscoveredEvent → Bool
is_found [] = false
is_found (e ∷ es) = true

-- The loop of `_scan_with_retry` from an attempt on: the events that it found, none of them where the
-- slot has ended. None is where the fuel has run out.
unfoldable pub scan_from :
    ℕ → Scanning → ℕ → ℕ → ScanState → Option (List DiscoveredEvent × ScanState)
scan_from zero c slot attempt s = none
scan_from (suc fuel) c slot attempt s =
    let events = events_of (c.replies attempt) in
    let s' = after_scan events (s.now + c.latency attempt) s in
    let (stays, woken) = wait_in_slot c attempt slot (wait_of c.schedule c.steady attempt) s'.now in
    let rest = scan_from fuel c slot (suc attempt) (record s' { now = woken }) in
    if not (in_slot slot s.now)
    then some ([], s)
    else if is_found events
    then some (events, s')
    else if stays
    then rest
    else some ([], record s' { now = woken })

-- `_scan_with_retry`
unfoldable pub scan_with_retry :
    ℕ → Scanning → ℕ → ScanState → Option (List DiscoveredEvent × ScanState)
scan_with_retry fuel c slot s = scan_from fuel c slot 0 s

-- The sleep until the end of the slot, at the time of the call.
unfoldable pub sleep_out : ScanState → ScanState
sleep_out s = record s { now = s.now + slot_remaining s.now }

-- A turn of `_loop`: what it found, and the state when the next turn starts.
unfoldable pub loop_turn : ℕ → Scanning → ScanState → Option (List DiscoveredEvent × ScanState)
loop_turn fuel c s = elim (scan_with_retry fuel c (current_slot_start s.now) s) [
  | none ↦ none
  | some (events, s') ↦ some (events, sleep_out s')
]
