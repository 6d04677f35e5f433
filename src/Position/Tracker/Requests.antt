-- ===== src/Position/Tracker/Requests.antt =====
-- The request to close a position that is open.
use polyfast.Base.{ℕ, String, ◌≡◌, some, List, refl, ok, arith}
use polyfast.Base.Dict.{put}
use polyfast.Float.{Float}
use polyfast.Position.State.{
  open_confirmed, closing_requested, allowed, CloseReason, ForceSellTrigger,
}
use polyfast.Position.Record.{PositionRecord, transition_to}
use polyfast.Position.Tracker.{
  Tracker, get_position, request_close, request_transition, store_record, persist,
}

module _ {N : Type 0} ⦃f : Float N⦄ where
  -- The record after a request.
  unfoldable pub requested_record :
      CloseReason → List ForceSellTrigger → N → ℕ → PositionRecord N → PositionRecord N
  requested_record reason triggers price now r = record r {
    state = closing_requested;
    close_reason = some reason;
    close_trigger_set = triggers;
    close_triggered_at = some now;
    close_requested_price = price;
  }

  may_request :
      (r : PositionRecord N)
      → r.state ≡ open_confirmed
      → transition_to closing_requested r ≡ ok (record r { state = closing_requested })
  unfolding transition_to allowed
  may_request r h = ground arith

  -- The request of an open position is granted: its record asks for the close, with its reason, and
  -- a save is scheduled.
  pub request_close-open :
      (pid : String) (reason : CloseReason) (triggers : List ForceSellTrigger) (price : N) (now : ℕ)
      (r : PositionRecord N) (t : Tracker N)
      → get_position t pid ≡ some r
      → r.state ≡ open_confirmed
      → let r' = requested_record reason triggers price now r in
        request_close pid reason triggers price now t
        ≡ (ok r', persist r.position_id (store_record pid r' t))
  unfolding request_close requested_record
  request_close-open pid reason triggers price now r t found h =
      rw (found, request_close) (rw (may_request r h, request_transition) refl)

  pub persist-positions :
      (id pid : String) (r : PositionRecord N) (t : Tracker N)
      → (persist id (store_record pid r t)).positions ≡ put t.positions pid r
  unfolding persist store_record
  persist-positions id pid r t = refl
