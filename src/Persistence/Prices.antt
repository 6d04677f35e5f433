-- ===== src/Persistence/Prices.antt =====
-- `PTBStore` (backend/persistence/ptb_store.py).
use polyfast.Base.{ℕ, String, Bool, true, ◌≡◌, Option, some, List, refl, str_eq, arith, subst}
use polyfast.Ptb.Record.{PtbStatus, waiting, acquired, failed, PtbRecord, is_acquired}
use polyfast.Persistence.Columns.{
  Texts, member_of, ◌>>=◌, ptb_status_value, ptb_statuses, time_column, read_time, ptb_status-found,
  read_time-column,
}
use polyfast.Persistence.Database.{Database, try_load, load_where}
use polyfast.Persistence.Stored.{IsSaved, load_where-IsSaved}

-- A row of `ptb_cache`.
pub record PtbRow (N : Type 0) : Type 0 where
  pub condition_id : String
  pub asset : String
  pub ptb_value : Option N
  pub status : String
  pub source_name : String
  pub acquired_at : Option String
  pub retry_count : ℕ
  pub last_error : String
  pub updated_at : String

abbrev pub ptb_key : {N : Type 0} → PtbRow N → String
ptb_key r = r.condition_id

module _ {N : Type 0} (x : Texts) where
  unfoldable pub ptb_row : ℕ → PtbRecord N → PtbRow N
  ptb_row now c = record {
    condition_id = c.condition_id;
    asset = c.asset;
    ptb_value = c.ptb_value;
    status = ptb_status_value c.status;
    source_name = c.source_name;
    acquired_at = time_column x c.acquired_at;
    retry_count = c.retry_count;
    last_error = c.last_error;
    updated_at = x.isoformat now;
  }

  -- `_row_to_record`; `none` where it raises.
  unfoldable pub row_to_ptb : PtbRow N → Option (PtbRecord N)
  row_to_ptb r = do
    status ← member_of ptb_status_value ptb_statuses r.status
    acquired_at ← read_time x r.acquired_at
    some (record {
      condition_id = r.condition_id;
      asset = r.asset;
      ptb_value = r.ptb_value;
      status = status;
      source_name = r.source_name;
      acquired_at = acquired_at;
      retry_count = r.retry_count;
      last_error = r.last_error;
    })

  row_to_ptb-row : (now : ℕ) (c : PtbRecord N) → row_to_ptb (ptb_row now c) ≡ some c
  unfolding row_to_ptb ptb_row
  row_to_ptb-row now c = rw (ptb_status-found c.status, read_time-column x c.acquired_at) refl

  row_to_ptb-key :
      (r : PtbRow N) (c : PtbRecord N) → row_to_ptb r ≡ some c → c.condition_id ≡ ptb_key r
  unfolding row_to_ptb
  row_to_ptb-key r c e = ground arith

-- `WHERE status = 'acquired'`
abbrev pub is_acquired_row : {N : Type 0} → PtbRow N → Bool
is_acquired_row r = str_eq r.status "acquired"

acquired_value : (s : PtbStatus) → str_eq (ptb_status_value s) "acquired" ≡ is_acquired s
unfolding ptb_status_value
acquired_value waiting = refl
acquired_value acquired = refl
acquired_value failed = refl

module _ {N T : Type 0} (x : Texts) (db : Database (PtbRow N) T ptb_key) where
  abbrev pub save : ℕ → PtbRecord N → T → Bool × T
  save now c t = db.insert_or_replace (ptb_row x now c) t

  abbrev pub load_locked : T → List (PtbRecord N)
  load_locked t = load_where db (row_to_ptb x) is_acquired_row t

  is_acquired-row :
      (now : ℕ) (c : PtbRecord N) → is_acquired_row (ptb_row x now c) ≡ is_acquired c.status
  unfolding ptb_row
  is_acquired-row now c = acquired_value c.status

  -- Where a save went through and neither the load before nor the query after raises, `load_locked`
  -- then gives the saved record, field by field, if it is acquired, and the others that it gave before.
  pub load_locked-save :
      (now : ℕ) (c : PtbRecord N) (t t' : T) (before : List (PtbRecord N)) (rs : List (PtbRow N))
      → save now c t ≡ (true, t')
      → try_load db (row_to_ptb x) is_acquired_row t ≡ some before
      → db.query is_acquired_row t' ≡ some rs
      → IsSaved (λ q. q.condition_id) (is_acquired c.status) c before (load_locked t')
  load_locked-save now c t t' before rs saved loaded asked =
      subst (λ b. IsSaved (λ q. q.condition_id) b c before (load_locked t')) (is_acquired-row now c)
        (load_where-IsSaved db (row_to_ptb x) (λ q. q.condition_id) (row_to_ptb-key x) c
          (ptb_row x now c) (row_to_ptb-row x now c) is_acquired_row t t' saved before rs loaded
          asked)

module _ {N T : Type 0} (db : Database (PtbRow N) T ptb_key) where
  abbrev pub clear_event : String → T → Bool × T
  clear_event condition_id t = db.delete condition_id t
