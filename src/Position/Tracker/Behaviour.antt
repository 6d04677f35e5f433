-- ===== src/Position/Tracker/Behaviour.antt =====
-- What each call of the tracker does on its branches.
use polyfast.Base.{
  ℕ, ◌+◌, ◌<◌, String, true, false, ◌≡◌, refl, some, ok, err, zero_division, invalid_transition,
  eq_refl, arith, ◌⊎◌,
}
use polyfast.Float.{Float}
use polyfast.Position.State.{
  PositionState, pending_open, open_confirmed, closing_requested, closed, allowed,
}
use polyfast.Position.Record.{PositionRecord, transition_to}
use polyfast.Position.Fees.{calculate_entry, entry_fill, calculate_exit}
use polyfast.Position.Tracker.{
  Tracker, get_position, get_event_fill_count, persist, store_record, write_entry, write_exit,
  confirm_fill, confirm_entry, confirm_transition, reject_fill, reject_transition, lower_fills,
  confirm_close, finish_close, close_transition,
}
use polyfast.Position.Tracker.Updates.{get_or_zero-lower}

module _ {N : Type 0} ⦃f : Float N⦄ where
  transition_allowed :
      (target : PositionState) (r : PositionRecord N)
      → allowed r.state target ≡ true
      → transition_to target r ≡ ok (record r { state = target })
  unfolding transition_to
  transition_allowed target r h = rw h

  -- The record after a fill.
  unfoldable pub filled_record : N → N → ℕ → PositionRecord N → PositionRecord N
  filled_record price rate now r =
      record (write_entry price (entry_fill rate r.requested_amount_usd price) now r) {
        state = open_confirmed;
      }

  -- The tracker after a fill.
  unfoldable pub filled_tracker : String → PositionRecord N → Tracker N → Tracker N
  filled_tracker pid r t =
      persist r.position_id
        (record (store_record pid r t) { session_trade_count = t.session_trade_count + 1 })

  calculate_entry_ok :
      (rate usd price : N)
      → f.eqf price f.zero_f ≡ false
      → calculate_entry rate usd price ≡ ok (entry_fill rate usd price)
  unfolding calculate_entry
  calculate_entry_ok rate usd price h = rw h

  -- A pending position is filled at a price other than 0.
  pub confirm_fill-pending :
      (pid : String) (price rate : N) (now : ℕ) (r : PositionRecord N) (t : Tracker N)
      → get_position t pid ≡ some r
      → r.state ≡ pending_open
      → f.eqf price f.zero_f ≡ false
      → confirm_fill pid price (some rate) now t ≡ (
        ok (filled_record price rate now r),
        filled_tracker pid (filled_record price rate now r) t,
      )
  unfolding confirm_fill filled_record filled_tracker
  confirm_fill-pending pid price rate now r t found pending nonzero =
      let w = write_entry price (entry_fill rate r.requested_amount_usd price) now r in
      let fine : allowed w.state open_confirmed ≡ true =
        unfold write_entry allowed in (ground arith) in
      rw (found, confirm_fill)
        (rw (calculate_entry_ok rate r.requested_amount_usd price nonzero, confirm_entry)
          (rw (transition_allowed open_confirmed w fine, confirm_transition)
            (unfold write_entry in refl)))

  -- A fill price of 0 raises ZeroDivisionError before anything is written.
  pub confirm_fill-zero :
      (pid : String) (price rate : N) (now : ℕ) (r : PositionRecord N) (t : Tracker N)
      → get_position t pid ≡ some r
      → f.eqf price f.zero_f ≡ true
      → confirm_fill pid price (some rate) now t ≡ (err zero_division, t)
  unfolding confirm_fill calculate_entry
  confirm_fill-zero pid price rate now r t found zero_price =
      rw (found, confirm_fill) (rw (zero_price, confirm_entry))

  transition_refused :
      (target : PositionState) (r : PositionRecord N)
      → allowed r.state target ≡ false
      → transition_to target r ≡ err invalid_transition
  unfolding transition_to
  transition_refused target r h = rw h

  -- A fill that comes for a position which is already open or done with raises, but only after it
  -- has overwritten the record's entry fields: the tracker keeps the new fill price and amounts.
  pub confirm_fill-overwrites :
      (pid : String) (price rate : N) (now : ℕ) (r : PositionRecord N) (t : Tracker N)
      → get_position t pid ≡ some r
      → allowed r.state open_confirmed ≡ false
      → f.eqf price f.zero_f ≡ false
      → let w = write_entry price (entry_fill rate r.requested_amount_usd price) now r in
        confirm_fill pid price (some rate) now t ≡ (err invalid_transition, store_record pid w t)
  unfolding confirm_fill
  confirm_fill-overwrites pid price rate now r t found done nonzero =
      let w = write_entry price (entry_fill rate r.requested_amount_usd price) now r in
      let no : allowed w.state open_confirmed ≡ false = unfold write_entry in done in
      rw (found, confirm_fill)
        (rw (calculate_entry_ok rate r.requested_amount_usd price nonzero, confirm_entry)
          (rw (transition_refused open_confirmed w no, confirm_transition)))

  -- The record after a rejection.
  unfoldable pub rejected_record : ℕ → PositionRecord N → PositionRecord N
  rejected_record now r = record r { state = closed; closed_at = some now }

  -- The rejection of a pending order closes its record and lowers its event's counter by one, if it
  -- is positive; no save is scheduled.
  pub reject_fill-pending :
      (pid : String) (now : ℕ) (r : PositionRecord N) (t : Tracker N)
      → get_position t pid ≡ some r
      → r.state ≡ pending_open
      → reject_fill pid now t ≡ (
        ok (rejected_record now r),
        store_record pid (rejected_record now r) (lower_fills r.condition_id t),
      )
  unfolding reject_fill rejected_record
  reject_fill-pending pid now r t found pending =
      let fine : allowed r.state closed ≡ true = unfold allowed in (ground arith) in
      rw (found, reject_fill) (rw (transition_allowed closed r fine, reject_transition))

  -- A rejection of an order that is not pending, such as one that was filled, raises, but only after
  -- it has lowered its event's counter.
  pub reject_fill-lowers :
      (pid : String) (now : ℕ) (r : PositionRecord N) (t : Tracker N)
      → get_position t pid ≡ some r
      → allowed r.state closed ≡ false
      → 0 < get_event_fill_count t r.condition_id
      → let (outcome, t') = reject_fill pid now t in
        (outcome ≡ err invalid_transition)
        × (t'.positions ≡ t.positions)
        × (get_event_fill_count t' r.condition_id + 1 ≡ get_event_fill_count t r.condition_id)
  unfolding reject_fill get_event_fill_count
  reject_fill-lowers pid now r t found bad pos =
      rw (found, reject_fill)
        (rw (transition_refused closed r bad, reject_transition)
          (unfold lower_fills in
            ground (
              arith,
              get_or_zero-lower t.event_fills r.condition_id r.condition_id,
              eq_refl r.condition_id,
            )))

  close_transition_ok :
      (r : PositionRecord N)
      → (allowed r.state closed ≡ true) ⊎ (r.state ≡ closing_requested)
      → close_transition r ≡ ok (record r { state = closed })
  unfolding close_transition transition_to allowed
  close_transition_ok r may = ground arith

  -- A close of a position that may be closed writes the exit's amounts and the realised profit once,
  -- schedules a save, and touches neither counter.
  pub confirm_close_lem :
      (pid : String) (price rate : N) (now : ℕ) (r : PositionRecord N) (t : Tracker N)
      → get_position t pid ≡ some r
      → (allowed r.state closed ≡ true) ⊎ (r.state ≡ closing_requested)
      → let r' =
          write_exit price
            (calculate_exit rate r.net_position_shares price)
            now
            (record r { state = closed }) in
        confirm_close pid price (some rate) now t
        ≡ (ok r', persist r'.position_id (store_record pid r' t))
  unfolding confirm_close
  confirm_close_lem pid price rate now r t found may =
      rw (found, confirm_close) (rw (close_transition_ok r may, finish_close))
