-- ===== src/Position/Tests.antt =====
-- Runs of the position's calls on sample records.
use polyfast.Base.{◌≡◌, true, none, some, ok, err, invalid_transition, refl, arith}
use polyfast.Base.Int.{ℤ, pos, leb_ℤ}
use polyfast.Base.Dict.{get, put, values}
use polyfast.Base.Lists.{count_if}
use polyfast.Float.Fixed.{fixed, fixed_laws}
use polyfast.Position.State.{pending_open, allowed}
use polyfast.Position.Fees.{EntryFill, entry_fill, calculate_entry}
use polyfast.Position.Fees.Bounds.{IsFraction, calculate_entry_bounds}
use polyfast.Position.Samples.{empty_tracker, pending_five, open_five, tracker_of}
use polyfast.Position.Tracker.{
  Tracker, get_position, get_or_zero, create_pending, confirm_fill, reject_fill, persist,
  write_entry, store_record, new_record,
}
use polyfast.Position.Tracker.Discipline.{IsConsistent, here, next, create, reject}
use polyfast.Position.Tracker.Invariant.{Reach-IsConsistent}
use polyfast.Position.Tracker.Behaviour.{confirm_fill-overwrites}

empty_tracker-IsConsistent : IsConsistent empty_tracker
unfolding get_or_zero get count_if values
empty_tracker-IsConsistent = record {
  fills_exact = λ cid. refl;
  trades_exact = refl;
  stamps = λ pid r h. ground arith;
}

-- An order is sent.
abbrev sent : Tracker ℤ
sent = (create_pending "p1" 10 "BTC" "UP" "c1" "k1" (pos 500) empty_tracker).1

-- It comes back without a fill.
abbrev sent_back : Tracker ℤ
sent_back = (reject_fill "p1" 12 sent).1

get-sent : get_position sent "p1" ≡ some pending_five
unfolding create_pending get put persist new_record
get-sent = refl

get-empty : get_position empty_tracker "p1" ≡ none
unfolding get
get-empty = refl

pending_five-state : pending_five.state ≡ pending_open
unfolding new_record
pending_five-state = refl

Reach-IsConsistent_example : IsConsistent sent_back
Reach-IsConsistent_example =
    Reach-IsConsistent
      (next (next here (create "p1" 10 "BTC" "UP" "c1" "k1" (pos 500) get-empty refl))
        (reject "p1" 12 pending_five get-sent pending_five-state refl))
      empty_tracker-IsConsistent

half : IsFraction (pos 50)
half = record { nonneg = refl; at_most_one = refl }

small_rate : IsFraction (pos 7)
small_rate = record { nonneg = refl; at_most_one = refl }

calculate_entry_bounds_example :
    (e : EntryFill ℤ) × (calculate_entry (pos 7) (pos 500) (pos 50) ≡ ok e)
    × (leb_ℤ (pos 0) e.net_position_shares ≡ true)
    × (leb_ℤ e.net_position_shares e.gross_fill_shares ≡ true)
    × (leb_ℤ (pos 0) e.entry_fee_shares ≡ true)
    × (leb_ℤ e.entry_fee_shares e.gross_fill_shares ≡ true)
calculate_entry_bounds_example =
    calculate_entry_bounds (pos 7) (pos 500) (pos 50) refl refl small_rate half

confirm_fill-overwrites_example :
    confirm_fill "p1" (pos 80) (some (pos 7)) 30 (tracker_of open_five) ≡ (
      err invalid_transition,
      store_record "p1"
          (write_entry (pos 80) (entry_fill (pos 7) (pos 500) (pos 80)) 30 open_five)
          (tracker_of open_five),
    )
unfolding new_record
confirm_fill-overwrites_example =
    confirm_fill-overwrites "p1" (pos 80) (pos 7) 30 open_five (tracker_of open_five)
      (unfold get in refl) (unfold allowed in refl) refl
