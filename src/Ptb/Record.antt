-- ===== src/Ptb/Record.antt =====
-- `PTBStatus` and `PTBRecord` (backend/ptb/models.py).
use polyfast.Base.{
  ℕ, ◌+◌, String, Bool, true, false, ◌&&◌, Option, none, some, if◌then◌else◌, Result, ok, err,
  already_locked, is_some,
}

-- `PTBStatus`
pub data PtbStatus : Type 0 where
  waiting acquired failed : PtbStatus

abbrev pub is_acquired : PtbStatus → Bool
is_acquired acquired = true
is_acquired _ = false

-- `PTBRecord`
pub record PtbRecord (N : Type 0) : Type 0 where
  pub condition_id : String
  pub asset : String
  pub ptb_value : Option N
  pub status : PtbStatus
  pub source_name : String
  pub acquired_at : Option ℕ
  pub retry_count : ℕ
  pub last_error : String

module _ {N : Type 0} where
  -- The record that is made for an event.
  unfoldable pub fresh_record : String → String → PtbRecord N
  fresh_record condition_id asset = record {
    condition_id = condition_id;
    asset = asset;
    ptb_value = none;
    status = waiting;
    source_name = "";
    acquired_at = none;
    retry_count = 0;
    last_error = "";
  }

  abbrev pub is_locked : PtbRecord N → Bool
  is_locked r = is_acquired r.status && is_some r.ptb_value

  abbrev pub locked_with : N → String → ℕ → PtbRecord N → PtbRecord N
  locked_with value source now r = record r {
    ptb_value = some value;
    status = acquired;
    source_name = source;
    acquired_at = some now;
  }

  -- A locked record raises RuntimeError.
  unfoldable pub lock : N → String → ℕ → PtbRecord N → Result (PtbRecord N)
  lock value source now r =
      if is_locked r then err already_locked else ok (locked_with value source now r)

  abbrev pub record_failure : String → PtbRecord N → PtbRecord N
  record_failure error r = record r {
    retry_count = r.retry_count + 1;
    last_error = error;
    status = failed;
  }

  abbrev pub record_retry : PtbRecord N → PtbRecord N
  record_retry r = record r { retry_count = r.retry_count + 1; status = waiting }
