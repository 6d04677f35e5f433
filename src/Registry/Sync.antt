-- ===== src/Registry/Sync.antt =====
-- `SafeSync` (backend/registry/safe_sync.py). `sync` runs over the candidates of a scan and then
-- over the records; a record that it mutates is replaced where it stands. The counts of the result
-- are kept, without its health incidents, which no code adds to.
pub mod Keyed
pub mod Missing
pub mod Scans
use polyfast.Base.{
  ℕ, ◌+◌, String, Bool, true, false, not, ◌&&◌, ◌||◌, Option, none, some, List, [], ◌∷◌,
  if◌then◌else◌, leb, str_eq,
}
use polyfast.Base.Dict.{Dict, get, put, remove}
use polyfast.Base.Lists.{any, length}
use polyfast.Registry.Status.{
  EventStatus, active, inactive, RegistryRecord, may_become, is_terminal, is_inactive, moved,
  update_last_seen,
}
use polyfast.Registry.Service.{DiscoveredEvent, Records, register_candidate}

pub record SyncResult : Type 0 where
  pub new_registered : ℕ
  pub updated_last_seen : ℕ
  pub soft_removed : ℕ
  pub protected_by_position : ℕ
  pub restored : ℕ
  pub total_in_registry : ℕ

-- The registry, `_miss_counts`, and the result as it grows.
pub record SyncState : Type 0 where
  pub records : Records
  pub miss_counts : Dict ℕ
  pub result : SyncResult

abbrev pub empty_result : SyncResult
empty_result = record {
  new_registered = 0;
  updated_last_seen = 0;
  soft_removed = 0;
  protected_by_position = 0;
  restored = 0;
  total_in_registry = 0;
}

-- `_miss_counts.get(cid, 0)`
unfoldable pub misses : Dict ℕ → String → ℕ
misses m cid = elim (get m cid) [ none ↦ 0 | some n ↦ n ]

-- `cid in seen_condition_ids`
unfoldable pub is_seen : List DiscoveredEvent → String → Bool
is_seen events cid = any (λ e. str_eq e.condition_id cid) events

-- The record of an event that was found again: an inactive one is active from now on.
unfoldable pub refound : ℕ → RegistryRecord → RegistryRecord
refound now r =
    let r' = update_last_seen now r in
    if is_inactive r'.status && may_become r'.status active then moved active now r' else r'

-- One turn of the first loop.
unfoldable pub take_candidate :
    (DiscoveredEvent → String) → ℕ → DiscoveredEvent → SyncState → SyncState
take_candidate ids now e s = elim (get s.records e.condition_id) [
  | none ↦ record s {
    records = register_candidate (ids e) now e s.records;
    miss_counts = remove s.miss_counts e.condition_id;
    result = record s.result { new_registered = s.result.new_registered + 1 };
  }
  | some r ↦ record s {
    records = put s.records e.condition_id (refound now r);
    miss_counts = remove s.miss_counts e.condition_id;
    result = record s.result {
      updated_last_seen = s.result.updated_last_seen + 1;
      restored = if is_inactive r.status then s.result.restored + 1 else s.result.restored;
    };
  }
]

unfoldable pub take_candidates :
    (DiscoveredEvent → String) → ℕ → List DiscoveredEvent → SyncState → SyncState
take_candidates ids now [] s = s
take_candidates ids now (e ∷ es) s = take_candidates ids now es (take_candidate ids now e s)

-- The record is passed over by the second loop: it was seen, or is done with.
unfoldable pub is_skipped : List DiscoveredEvent → RegistryRecord → Bool
is_skipped events r = is_seen events r.condition_id || is_terminal r.status

-- `miss_count >= self._delist_threshold`, where the transition is allowed
unfoldable pub is_removed : ℕ → Dict ℕ → RegistryRecord → Bool
is_removed threshold m r =
    leb threshold (misses m r.condition_id + 1) && may_become r.status inactive

-- One turn of the second loop, without the counts of the result: the record and `_miss_counts`.
unfoldable pub visit :
    List DiscoveredEvent → ℕ → ℕ → RegistryRecord → Dict ℕ → RegistryRecord × Dict ℕ
visit events threshold now r m =
    if is_skipped events r then (r, m) else if r.has_open_position then (r, m) else (
      if is_removed threshold m r then moved inactive now r else r,
      put m r.condition_id (misses m r.condition_id + 1),
    )

-- Its counts.
unfoldable pub count_visit :
    List DiscoveredEvent → ℕ → RegistryRecord → Dict ℕ → SyncResult → SyncResult
count_visit events threshold r m result =
    if is_skipped events r
    then result
    else if r.has_open_position
    then record result { protected_by_position = result.protected_by_position + 1 }
    else if is_removed threshold m r
    then record result { soft_removed = result.soft_removed + 1 }
    else result

-- The second loop.
unfoldable pub sweep : List DiscoveredEvent → ℕ → ℕ → Records → Dict ℕ → Records × Dict ℕ
sweep events threshold now [] m = ([], m)
sweep events threshold now ((cid, r) ∷ d) m =
    let here = visit events threshold now r m in
    let rest = sweep events threshold now d here.1 in ((cid, here.0) ∷ rest.0, rest.1)

unfoldable pub count_sweep :
    List DiscoveredEvent → ℕ → ℕ → Records → Dict ℕ → SyncResult → SyncResult
count_sweep events threshold now [] m result = result
count_sweep events threshold now ((cid, r) ∷ d) m result =
    count_sweep events threshold now d (visit events threshold now r m).1
      (count_visit events threshold r m result)

-- `sync`; `ids` gives the identifiers that new records are made with.
unfoldable pub sync :
    ℕ → (DiscoveredEvent → String) → ℕ → List DiscoveredEvent → SyncState → SyncState
sync threshold ids now events s =
    let s₁ = take_candidates ids now events (record s { result = empty_result }) in
    let swept = sweep events threshold now s₁.records s₁.miss_counts in
    let counted = count_sweep events threshold now s₁.records s₁.miss_counts s₁.result in
    record {
      records = swept.0;
      miss_counts = swept.1;
      result = record counted { total_in_registry = length swept.0 };
    }
