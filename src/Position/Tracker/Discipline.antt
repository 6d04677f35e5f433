-- ===== src/Position/Tracker/Discipline.antt =====
-- What the tracker's counters stand for, and the calls that its clients make.
use polyfast.Base.{
  ℕ, String, Bool, true, not, ◌&&◌, ◌||◌, ◌≡◌, ◌≢◌, Option, none, some, List, str_eq, is_some,
}
use polyfast.Base.Dict.{Dict, get, values}
use polyfast.Base.Lists.{count_if}
use polyfast.Float.{Float}
use polyfast.Position.State.{
  PositionState, pending_open, open_confirmed, closing_requested, close_pending, closed,
  close_failed, CloseReason, ForceSellTrigger,
}
use polyfast.Position.Record.{PositionRecord, is_closed, is_pending}
use polyfast.Position.Tracker.{
  Tracker, get_position, get_or_zero, restore_position, create_pending, confirm_fill, reject_fill,
  request_close, confirm_close,
}

-- A record is stamped by its fill: a pending one is not, and any other is, unless it is closed.
abbrev pub stamp_fits : PositionState → Option ℕ → Bool
stamp_fits pending_open stamp = not (is_some stamp)
stamp_fits closed stamp = true
stamp_fits open_confirmed stamp = is_some stamp
stamp_fits closing_requested stamp = is_some stamp
stamp_fits close_pending stamp = is_some stamp
stamp_fits close_failed stamp = is_some stamp

module _ {N : Type 0} where
  -- The order was sent and has not come back without a fill.
  abbrev pub counts_for : String → PositionRecord N → Bool
  counts_for cid r = str_eq r.condition_id cid && (is_some r.opened_at || not (is_closed r))

  -- The order was filled.
  abbrev pub is_filled : PositionRecord N → Bool
  is_filled r = is_some r.opened_at

  pub record IsStamped (pid : String) (r : PositionRecord N) : Type 0 where
    pub keyed : r.position_id ≡ pid
    pub stamped : stamp_fits r.state r.opened_at ≡ true

  -- The counters agree with the records: an event's counter is the number of its orders that were
  -- not rejected, the session's counter the number of filled orders.
  pub record Consistent (positions : Dict (PositionRecord N)) (fills : Dict ℕ) (trades : ℕ)
      : Type 0 where
    pub fills_exact :
        (cid : String) → get_or_zero fills cid ≡ count_if (counts_for cid) (values positions)
    pub trades_exact : trades ≡ count_if is_filled (values positions)
    pub stamps :
        (pid : String) (r : PositionRecord N) → get positions pid ≡ some r → IsStamped pid r

  abbrev pub IsConsistent : Tracker N → Type 0
  IsConsistent t = Consistent t.positions t.event_fills t.session_trade_count

module _ {N : Type 0} ⦃f : Float N⦄ where
  -- The calls of the executors and of the start-up: new orders under fresh identifiers, a fill or
  -- a rejection of a pending order, requests to close, and a close of what is no longer pending.
  pub data Step (t u : Tracker N) : Type 0 where
    create :
        (pid : String) (now : ℕ) (asset side cid token : String) (amount : N)
        → get_position t pid ≡ none
        → u ≡ (create_pending pid now asset side cid token amount t).1
        → Step t u
    restore :
        (r : PositionRecord N)
        → get_position t r.position_id ≡ none
        → IsStamped r.position_id r
        → is_some r.opened_at ≡ not (is_pending r)
        → u ≡ restore_position r t
        → Step t u
    fill :
        (pid : String) (price : N) (rate : Option N) (now : ℕ) (r : PositionRecord N)
        → get_position t pid ≡ some r
        → r.state ≡ pending_open
        → u ≡ (confirm_fill pid price rate now t).1
        → Step t u
    reject :
        (pid : String) (now : ℕ) (r : PositionRecord N)
        → get_position t pid ≡ some r
        → r.state ≡ pending_open
        → u ≡ (reject_fill pid now t).1
        → Step t u
    request :
        (pid : String) (reason : CloseReason) (triggers : List ForceSellTrigger) (price : N)
        (now : ℕ)
        → u ≡ (request_close pid reason triggers price now t).1
        → Step t u
    close :
        (pid : String) (price : N) (rate : Option N) (now : ℕ) (r : PositionRecord N)
        → get_position t pid ≡ some r
        → r.state ≢ pending_open
        → u ≡ (confirm_close pid price rate now t).1
        → Step t u

  pub data Reach (t : Tracker N) : Tracker N → Type 0 where
    here : Reach t t
    next : {u v : Tracker N} → Reach t u → Step u v → Reach t v
