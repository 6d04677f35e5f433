-- ===== src/Registry/Tests.antt =====
-- Scans and expiries on a sample registry.
use polyfast.Base.{
  ◌+◌, ◌<◌, ◌≡◌, String, true, false, not, ◌&&◌, ◌||◌, some, List, [], ◌∷◌, refl, if◌then◌else◌,
  leb, arith,
}
use polyfast.Base.Dict.{get}
use polyfast.Base.Lists.{any}
use polyfast.Registry.Status.{active, inactive, RegistryRecord, moved, is_terminal, may_become}
use polyfast.Registry.Service.{DiscoveredEvent, Records}
use polyfast.Registry.Sync.{SyncState, misses, is_seen, sync, empty_result}
use polyfast.Registry.Sync.Keyed.{IsKeyed, no_records, one_more}
use polyfast.Registry.Sync.Missing.{sync-missed}
use polyfast.Registry.Sync.Scans.{Scan, sync_scans, all_miss, StatusIs, sync_scans-status}

abbrev btc_event : RegistryRecord
btc_event = record {
  event_id = "e1";
  condition_id = "c1";
  asset = "BTC";
  question = some "BTC up or down?";
  slug = "btc-updown";
  status = active;
  first_seen_at = 1;
  last_seen_at = 1;
  status_changed_at = 2;
  end_date = 300;
  has_open_position = false;
}

abbrev registry : Records
registry = ("c1", btc_event) ∷ []

abbrev state : SyncState
state = record { records = registry; miss_counts = []; result = empty_result }

abbrev eth_found : DiscoveredEvent
eth_found = record {
  condition_id = "c2";
  asset = "ETH";
  question = some "ETH up or down?";
  slug = "eth-updown";
  end_date = 300;
  discovered_at = 10;
  duration = "5m";
  category = "crypto";
  clob_token_ids = [];
  outcomes = [];
  outcome_prices = "";
}

abbrev btc_found : DiscoveredEvent
btc_found = record eth_found { condition_id = "c1"; asset = "BTC" }

abbrev new_id : DiscoveredEvent → String
new_id e = e.slug

registry-IsKeyed : IsKeyed registry
unfolding get
registry-IsKeyed = one_more refl refl no_records

get-registry : get registry "c1" ≡ some btc_event
unfolding get
get-registry = refl

missed : is_seen (eth_found ∷ []) "c1" ≡ false
unfolding is_seen any
missed = refl

seen : is_seen (eth_found ∷ btc_found ∷ []) "c1" ≡ true
unfolding is_seen any
seen = refl

sync-missed_example :
    let s' = sync 3 new_id 10 (eth_found ∷ []) state in
    let n = misses [] "c1" in
    let untouched = is_terminal active || false in
    (get s'.records "c1"
      ≡ some (
          if not untouched && leb 3 (n + 1) && may_become active inactive
          then moved inactive 10 btc_event
          else btc_event))
    × (misses s'.miss_counts "c1" ≡ (if untouched then n else n + 1))
sync-missed_example =
    sync-missed 3 new_id 10 (eth_found ∷ []) state "c1" btc_event registry-IsKeyed get-registry
      missed

-- Three scans in a row that find only the other event.
abbrev three_scans : List Scan
three_scans = (10, eth_found ∷ []) ∷ (20, eth_found ∷ []) ∷ (30, []) ∷ []

three_scans-all_miss : all_miss "c1" three_scans ≡ true
unfolding all_miss is_seen any
three_scans-all_miss = refl

below_three : misses [] "c1" < 3
unfolding misses get
below_three = ground arith

sync_scans-status_example :
    StatusIs
      (sync_scans 3 new_id three_scans state)
      "c1"
      (if leb 3 (misses [] "c1" + 3) then inactive else active)
sync_scans-status_example =
    sync_scans-status 3 new_id three_scans state "c1" btc_event registry-IsKeyed get-registry refl
      refl below_three three_scans-all_miss
