-- ===== src/Registry/Status.antt =====
-- `EventStatus`, `ALLOWED_TRANSITIONS` and `RegistryRecord` (backend/registry/models.py).
use polyfast.Base.{
  Option, ℕ, String, Bool, true, false, if◌then◌else◌, Result, ok, err, invalid_transition,
}

-- `EventStatus`
pub data EventStatus : Type 0 where
  discovered validating active inactive expired suspended closed : EventStatus

-- `target in ALLOWED_TRANSITIONS[status]`
unfoldable pub may_become : EventStatus → EventStatus → Bool
may_become discovered validating = true
may_become discovered inactive = true
may_become discovered closed = true
may_become validating active = true
may_become validating inactive = true
may_become validating closed = true
may_become active inactive = true
may_become active expired = true
may_become active suspended = true
may_become active closed = true
may_become inactive active = true
may_become inactive expired = true
may_become inactive closed = true
may_become expired closed = true
may_become suspended active = true
may_become suspended closed = true
may_become _ _ = false

-- `record.status in (EventStatus.EXPIRED, EventStatus.CLOSED)`
abbrev pub is_terminal : EventStatus → Bool
is_terminal expired = true
is_terminal closed = true
is_terminal _ = false

abbrev pub is_inactive : EventStatus → Bool
is_inactive inactive = true
is_inactive _ = false

abbrev pub is_active : EventStatus → Bool
is_active active = true
is_active _ = false

pub record RegistryRecord : Type 0 where
  pub event_id : String
  pub condition_id : String
  pub asset : String
  pub question : Option String
  pub slug : String
  pub status : EventStatus
  pub first_seen_at : ℕ
  pub last_seen_at : ℕ
  pub status_changed_at : ℕ
  pub end_date : ℕ
  pub has_open_position : Bool

-- The record in another status, from a time on.
abbrev pub moved : EventStatus → ℕ → RegistryRecord → RegistryRecord
moved target now r = record r { status = target; status_changed_at = now }

-- `RegistryRecord.transition_to`
unfoldable pub change_status : EventStatus → ℕ → RegistryRecord → Result RegistryRecord
change_status target now r =
    if may_become r.status target then ok (moved target now r) else err invalid_transition

-- `update_last_seen`
abbrev pub update_last_seen : ℕ → RegistryRecord → RegistryRecord
update_last_seen now r = record r { last_seen_at = now }
