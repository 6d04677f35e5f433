-- ===== src/Persistence/Columns.antt =====
-- How the stores (backend/persistence) write values into columns and read them back: the texts of the
-- enumerations, times by `isoformat`, the set of triggers by `json.dumps`.
use polyfast.Base.{
  ℕ, String, false, ◌≡◌, Option, none, some, List, [], ◌∷◌, if◌then◌else◌, refl, str_eq, arith,
}
use polyfast.Position.State.{
  PositionState, pending_open, open_confirmed, closing_requested, close_pending, closed,
  close_failed, CloseReason, take_profit, stop_loss, force_sell, manual_close, expiry, claim,
  system_shutdown, error_recovery, ForceSellTrigger,
}
use polyfast.Claims.Record.{
  ClaimStatus, pending, success, failed, ClaimOutcome, redeemed_won, redeemed_lost, unredeemed,
  redeem_failed,
}
use polyfast.Ptb.Record.{PtbStatus, waiting, acquired}
use polyfast.Strategy.Context.{SideMode, dominant_only, up_only, down_only}

-- Python's `datetime` and `json`: a time that was printed is read again, and no printed text is empty.
pub record Texts : Type 0 where
  pub isoformat : ℕ → String
  pub fromisoformat : String → Option ℕ  -- `none` where it raises ValueError
  pub dumps : List ForceSellTrigger → String
  pub loads : String → Option (List ForceSellTrigger)  -- `none` where it raises
  pub fromisoformat-isoformat : (t : ℕ) → fromisoformat (isoformat t) ≡ some t
  pub isoformat-nonempty : (t : ℕ) → str_eq (isoformat t) "" ≡ false
  pub loads-dumps : (ts : List ForceSellTrigger) → loads (dumps ts) ≡ some ts
  pub dumps-nonempty : (ts : List ForceSellTrigger) → str_eq (dumps ts) "" ≡ false

-- `Enum(text)`: the member of that value; `none` stands for the ValueError.
unfoldable pub member_of : {A : Type 0} → (A → String) → List A → String → Option A
member_of value [] text = none
member_of value (m ∷ ms) text = if str_eq (value m) text then some m else member_of value ms text

-- `a >>= f` goes on with what was read, and stops where reading raises.
infixl 5 ◌>>=◌
abbrev pub ◌>>=◌ : {A B : Type 0} → Option A → (A → Option B) → Option B
none >>= f = none
some a >>= f = f a

-- A chain that ends well has passed each step.
pub bind-some :
    {A B : Type 0} (o : Option A) (f : A → Option B) (b : B)
    → (o >>= f) ≡ some b
    → (a : A) × (o ≡ some a) × (f a ≡ some b)
bind-some none f b e = absurd (ground arith)
bind-some (some a) f b e = (a, refl, e)

-- A time's column: NULL where there is none.
module _ (x : Texts) where
  unfoldable pub time_column : Option ℕ → Option String
  time_column none = none
  time_column (some t) = some (x.isoformat t)

  -- `datetime.fromisoformat(c) if c else None`; `none` where it raises.
  unfoldable pub read_time : Option String → Option (Option ℕ)
  read_time none = some none
  read_time (some c) = if str_eq c "" then some none else (x.fromisoformat c >>= λ t. some (some t))

  pub read_time-column : (t : Option ℕ) → read_time (time_column t) ≡ some t
  unfolding read_time time_column
  read_time-column none = refl
  read_time-column (some t) = rw (x.isoformat-nonempty t, x.fromisoformat-isoformat t) refl

-- `.value` of the enumerations, and their members.
unfoldable pub state_value : PositionState → String
state_value pending_open = "pending_open"
state_value open_confirmed = "open_confirmed"
state_value closing_requested = "closing_requested"
state_value close_pending = "close_pending"
state_value closed = "closed"
state_value close_failed = "close_failed"

abbrev pub states : List PositionState
states =
    pending_open ∷ open_confirmed ∷ closing_requested ∷ close_pending ∷ closed ∷ close_failed ∷ []

unfoldable pub reason_value : CloseReason → String
reason_value take_profit = "take_profit"
reason_value stop_loss = "stop_loss"
reason_value force_sell = "force_sell"
reason_value manual_close = "manual_close"
reason_value expiry = "expiry"
reason_value claim = "claim"
reason_value system_shutdown = "system_shutdown"
reason_value error_recovery = "error_recovery"

abbrev pub reasons : List CloseReason
reasons =
    take_profit ∷ stop_loss ∷ force_sell ∷ manual_close ∷ expiry ∷ claim ∷ system_shutdown
    ∷ error_recovery ∷ []

unfoldable pub claim_status_value : ClaimStatus → String
claim_status_value pending = "pending"
claim_status_value success = "success"
claim_status_value failed = "failed"

abbrev pub claim_statuses : List ClaimStatus
claim_statuses = pending ∷ success ∷ failed ∷ []

unfoldable pub outcome_value : ClaimOutcome → String
outcome_value redeemed_won = "redeemed_won"
outcome_value redeemed_lost = "redeemed_lost"
outcome_value unredeemed = "pending"
outcome_value redeem_failed = "failed"

abbrev pub outcomes : List ClaimOutcome
outcomes = redeemed_won ∷ redeemed_lost ∷ unredeemed ∷ redeem_failed ∷ []

unfoldable pub ptb_status_value : PtbStatus → String
ptb_status_value waiting = "waiting"
ptb_status_value acquired = "acquired"
ptb_status_value PtbStatus.failed = "failed"

abbrev pub ptb_statuses : List PtbStatus
ptb_statuses = waiting ∷ acquired ∷ PtbStatus.failed ∷ []

unfoldable pub side_mode_value : SideMode → String
side_mode_value dominant_only = "dominant_only"
side_mode_value up_only = "up_only"
side_mode_value down_only = "down_only"

abbrev pub side_modes : List SideMode
side_modes = dominant_only ∷ up_only ∷ down_only ∷ []

pub state-found : (s : PositionState) → member_of state_value states (state_value s) ≡ some s
unfolding member_of state_value
state-found pending_open = refl
state-found open_confirmed = refl
state-found closing_requested = refl
state-found close_pending = refl
state-found closed = refl
state-found close_failed = refl

pub reason-found : (r : CloseReason) → member_of reason_value reasons (reason_value r) ≡ some r
unfolding member_of reason_value
reason-found take_profit = refl
reason-found stop_loss = refl
reason-found force_sell = refl
reason-found manual_close = refl
reason-found expiry = refl
reason-found claim = refl
reason-found system_shutdown = refl
reason-found error_recovery = refl

pub reason_value-nonempty : (r : CloseReason) → str_eq (reason_value r) "" ≡ false
unfolding reason_value
reason_value-nonempty take_profit = refl
reason_value-nonempty stop_loss = refl
reason_value-nonempty force_sell = refl
reason_value-nonempty manual_close = refl
reason_value-nonempty expiry = refl
reason_value-nonempty claim = refl
reason_value-nonempty system_shutdown = refl
reason_value-nonempty error_recovery = refl

pub claim_status-found :
    (s : ClaimStatus) → member_of claim_status_value claim_statuses (claim_status_value s) ≡ some s
unfolding member_of claim_status_value
claim_status-found pending = refl
claim_status-found success = refl
claim_status-found failed = refl

pub outcome-found : (o : ClaimOutcome) → member_of outcome_value outcomes (outcome_value o) ≡ some o
unfolding member_of outcome_value
outcome-found redeemed_won = refl
outcome-found redeemed_lost = refl
outcome-found unredeemed = refl
outcome-found redeem_failed = refl

pub ptb_status-found :
    (s : PtbStatus) → member_of ptb_status_value ptb_statuses (ptb_status_value s) ≡ some s
unfolding member_of ptb_status_value
ptb_status-found waiting = refl
ptb_status-found acquired = refl
ptb_status-found PtbStatus.failed = refl

pub side_mode-found :
    (m : SideMode) → member_of side_mode_value side_modes (side_mode_value m) ≡ some m
unfolding member_of side_mode_value
side_mode-found dominant_only = refl
side_mode-found up_only = refl
side_mode-found down_only = refl
