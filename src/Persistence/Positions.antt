-- ===== src/Persistence/Positions.antt =====
-- `PositionStore` (backend/persistence/position_store.py).
pub mod Row
use polyfast.Base.{
  ℕ, String, Bool, true, not, ◌≡◌, Option, none, some, List, [], if◌then◌else◌, refl, str_eq, arith,
  subst,
}
use polyfast.Base.Lists.{IsIn}
use polyfast.Position.State.{
  PositionState, pending_open, open_confirmed, closing_requested, close_pending, closed,
  close_failed, is_state, CloseReason, ForceSellTrigger,
}
use polyfast.Position.Record.{PositionRecord, is_closed}
use polyfast.Persistence.Columns.{
  Texts, member_of, ◌>>=◌, state_value, states, reason_value, reasons, time_column, read_time,
  state-found, reason-found, reason_value-nonempty, read_time-column,
}
use polyfast.Persistence.Database.{Database, try_load, load_where, load_where-unreadable}
use polyfast.Persistence.Stored.{IsSaved, load_where-IsSaved}
use polyfast.Persistence.Positions.Row.{
  PositionRow, position_key, position_row, row_to_position, row_to_position-row,
  row_to_position-key,
}

abbrev pub all_rows : {N : Type 0} → PositionRow N → Bool
all_rows r = true

-- `WHERE state NOT IN ('closed')`
abbrev pub is_non_terminal : {N : Type 0} → PositionRow N → Bool
is_non_terminal r = not (str_eq r.state "closed")

not_closed : (s : PositionState) → not (str_eq (state_value s) "closed") ≡ not (is_state s closed)
unfolding state_value
not_closed pending_open = refl
not_closed open_confirmed = refl
not_closed closing_requested = refl
not_closed close_pending = refl
not_closed closed = refl
not_closed close_failed = refl

module _ {N T : Type 0} (x : Texts) (db : Database (PositionRow N) T position_key) where
  -- `save` returns whether it went through.
  abbrev pub save : ℕ → PositionRecord N → T → Bool × T
  save now p t = db.insert_or_replace (position_row x now p) t

  abbrev pub load_all : T → List (PositionRecord N)
  load_all t = load_where db (row_to_position x) all_rows t

  abbrev pub load_non_terminal : T → List (PositionRecord N)
  load_non_terminal t = load_where db (row_to_position x) is_non_terminal t

  -- Where a save went through and neither the load before nor the query after raises, `load_all`
  -- then gives the saved position, field by field, and the others that it gave before.
  pub load_all-save :
      (now : ℕ) (p : PositionRecord N) (t t' : T) (before : List (PositionRecord N))
      (rs : List (PositionRow N))
      → save now p t ≡ (true, t')
      → try_load db (row_to_position x) all_rows t ≡ some before
      → db.query all_rows t' ≡ some rs
      → IsSaved (λ q. q.position_id) true p before (load_all t')
  unfolding position_row
  load_all-save now p t t' before rs saved loaded asked =
      load_where-IsSaved db (row_to_position x) (λ q. q.position_id) (row_to_position-key x) p
        (position_row x now p) (row_to_position-row x now p) all_rows t t' saved before rs loaded
        asked

  is_non_terminal-row :
      (now : ℕ) (p : PositionRecord N) → is_non_terminal (position_row x now p) ≡ not (is_closed p)
  unfolding position_row
  is_non_terminal-row now p = not_closed p.state

  -- The same of `load_non_terminal`, which gives the saved position unless it is closed.
  pub load_non_terminal-save :
      (now : ℕ) (p : PositionRecord N) (t t' : T) (before : List (PositionRecord N))
      (rs : List (PositionRow N))
      → save now p t ≡ (true, t')
      → try_load db (row_to_position x) is_non_terminal t ≡ some before
      → db.query is_non_terminal t' ≡ some rs
      → IsSaved (λ q. q.position_id) (not (is_closed p)) p before (load_non_terminal t')
  load_non_terminal-save now p t t' before rs saved loaded asked =
      subst (λ b. IsSaved (λ q. q.position_id) b p before (load_non_terminal t'))
        (is_non_terminal-row now p)
        (load_where-IsSaved db (row_to_position x) (λ q. q.position_id) (row_to_position-key x) p
          (position_row x now p) (row_to_position-row x now p) is_non_terminal t t' saved before rs
          loaded asked)

  row_to_position-unknown :
      (r : PositionRow N) → member_of state_value states r.state ≡ none → row_to_position x r ≡ none
  unfolding row_to_position
  row_to_position-unknown r unknown = rw unknown refl

  -- One row with a text that is no state makes `load_all` give no position at all.
  pub load_all-unknown_state :
      (t : T) (rs : List (PositionRow N)) (r : PositionRow N)
      → db.query all_rows t ≡ some rs
      → IsIn r rs
      → member_of state_value states r.state ≡ none
      → load_all t ≡ []
  load_all-unknown_state t rs r asked i unknown =
      load_where-unreadable db (row_to_position x) all_rows t rs r asked i
        (row_to_position-unknown r unknown)
