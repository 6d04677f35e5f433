-- ===== src/Registry/Service.antt =====
-- `EventRegistry` (backend/registry/service.py). The records stand under their condition_id. A
-- record that a method mutates is the one that the registry holds.
pub mod Expiry
use polyfast.Base.{
  ℕ, String, Bool, false, ◌||◌, ◌&&◌, not, Option, none, some, List, [], ◌∷◌, if◌then◌else◌, leb,
  Result, ok, err, key_error,
}
use polyfast.Base.Dict.{Dict, get, put, values}
use polyfast.Base.Lists.{count_if}
use polyfast.Registry.Status.{
  EventStatus, discovered, expired, RegistryRecord, may_become, is_terminal, is_active,
  change_status, update_last_seen, moved,
}

-- `DiscoveredEvent` (backend/discovery/models.py).
pub record DiscoveredEvent : Type 0 where
  pub condition_id : String
  pub asset : String
  pub question : Option String
  pub slug : String
  pub end_date : ℕ
  pub discovered_at : ℕ
  pub duration : String
  pub category : String
  pub clob_token_ids : List String
  pub outcomes : List String
  pub outcome_prices : String

-- `_records`
abbrev pub Records : Type 0
Records = Dict RegistryRecord

-- The record that `register_candidate` makes; `event_id` is the new `uuid.uuid4()`.
unfoldable pub new_event : String → DiscoveredEvent → RegistryRecord
new_event event_id e = record {
  event_id = event_id;
  condition_id = e.condition_id;
  asset = e.asset;
  question = e.question;
  slug = e.slug;
  status = discovered;
  first_seen_at = e.discovered_at;
  last_seen_at = e.discovered_at;
  status_changed_at = e.discovered_at;
  end_date = e.end_date;
  has_open_position = false;
}

unfoldable pub register_candidate : String → ℕ → DiscoveredEvent → Records → Records
register_candidate event_id now e d = elim (get d e.condition_id) [
  | some r ↦ put d e.condition_id (update_last_seen now r)
  | none ↦ put d e.condition_id (new_event event_id e)
]

unfoldable pub transition_event :
    String → EventStatus → ℕ → Records → Result RegistryRecord × Records
transition_event cid target now d = elim (get d cid) [
  | none ↦ (err key_error, d)
  | some r ↦ (elim (change_status target now r) [
    | err e ↦ (err e, d)
    | ok r' ↦ (ok r', put d cid r')
  ])
]

unfoldable pub active_count : Records → ℕ
active_count d = count_if (λ r. is_active r.status) (values d)

-- The turn of `expire_events` that moves a record; a refused transition is passed over.
unfoldable pub expires : ℕ → RegistryRecord → Bool
expires now r = not (is_terminal r.status) && leb r.end_date now && may_become r.status expired

-- `expire_events`: the identifiers that expired, and the records.
unfoldable pub expire_events : ℕ → Records → List String × Records
expire_events now [] = ([], [])
expire_events now ((cid, r) ∷ d) =
    let rest = expire_events now d in
    if expires now r
    then (cid ∷ rest.0, (cid, moved expired now r) ∷ rest.1)
    else (rest.0, (cid, r) ∷ rest.1)
