-- ===== src/Position/Tracker/Orders.antt =====
-- The consistency of the counters under new orders, restored ones, fills and rejections.
use polyfast.Base.{
  is_some, one_if, ℕ, ◌+◌, ◌-◌, ◌<◌, Result, ok, err, String, true, not, ◌≡◌, refl, Option, none,
  some, str_eq, eq_refl, arith, inl, inr,
}
use polyfast.Base.Dict.{Dict, put}
use polyfast.Float.{Float}
use polyfast.Position.State.{pending_open, open_confirmed, closed, allowed}
use polyfast.Position.Record.{PositionRecord, transition_to-cases, is_pending}
use polyfast.Position.Fees.{EntryFill}
use polyfast.Position.Tracker.{
  Tracker, get_position, get_or_zero, restore_position, create_pending, confirm_fill, confirm_entry,
  confirm_transition, reject_transition, reject_fill, lower_fills, persist, store_record,
  write_entry, new_record,
}
use polyfast.Position.Tracker.Counts.{count_if-pos}
use polyfast.Position.Tracker.Discipline.{counts_for, IsStamped, IsConsistent}
use polyfast.Position.Tracker.Updates.{
  get_or_zero-increment, get_or_zero-lower, update-Consistent, insert-Consistent,
}

module _ {N : Type 0} ⦃f : Float N⦄ where
  pub create-IsConsistent :
      (pid : String) (now : ℕ) (asset side cid token : String) (amount : N) (t : Tracker N)
      → get_position t pid ≡ none
      → IsConsistent t
      → IsConsistent (create_pending pid now asset side cid token amount t).1
  unfolding create_pending persist new_record
  create-IsConsistent pid now asset side cid token amount t fresh c =
      insert-Consistent pid (new_record pid now asset side cid token amount) fresh
        (record { keyed = refl; stamped = refl })
        (λ k. ground (arith, get_or_zero-increment t.event_fills cid k)) (omega arith) c

  pub restore-IsConsistent :
      (r : PositionRecord N) (t : Tracker N)
      → get_position t r.position_id ≡ none
      → IsStamped r.position_id r
      → is_some r.opened_at ≡ not (is_pending r)
      → IsConsistent t
      → IsConsistent (restore_position r t)
  unfolding restore_position
  restore-IsConsistent r t fresh fits filled c =
      insert-Consistent r.position_id r fresh fits
        (λ k. ground (arith, get_or_zero-increment t.event_fills r.condition_id k)) (ground arith) c

  confirm_transition-IsConsistent :
      (pid : String) (price : N) (entry : EntryFill N) (now : ℕ) (r : PositionRecord N)
      (t : Tracker N)
      → get_position t pid ≡ some r
      → r.state ≡ pending_open
      → IsConsistent t
      → IsConsistent (confirm_transition pid (write_entry price entry now r) t).1
  unfolding confirm_transition write_entry persist store_record allowed
  confirm_transition-IsConsistent pid price entry now r t found pending c =
      elim (transition_to-cases open_confirmed (write_entry price entry now r)) [
        | inl (fine, e) ↦
            rw (e, confirm_transition)
              (update-Consistent pid r
                (record (write_entry price entry now r) { state = open_confirmed }) found
                (record { keyed = (c.stamps pid r found).keyed; stamped = refl })
                (λ cid. ground arith) (ground (arith, (c.stamps pid r found).stamped)) c)
        | inr (bad, e) ↦ absurd (ground arith)
      ]

  confirm_entry-IsConsistent :
      (pid : String) (price : N) (e : Result (EntryFill N)) (now : ℕ) (r : PositionRecord N)
      (t : Tracker N)
      → get_position t pid ≡ some r
      → r.state ≡ pending_open
      → IsConsistent t
      → IsConsistent (confirm_entry pid price e now r t).1
  unfolding confirm_entry
  confirm_entry-IsConsistent pid price (err e) now r t found pending c = c
  confirm_entry-IsConsistent pid price (ok entry) now r t found pending c =
      confirm_transition-IsConsistent pid price entry now r t found pending c

  pub fill-IsConsistent :
      (pid : String) (price : N) (rate : Option N) (now : ℕ) (t : Tracker N) (r : PositionRecord N)
      → get_position t pid ≡ some r
      → r.state ≡ pending_open
      → IsConsistent t
      → IsConsistent (confirm_fill pid price rate now t).1
  unfolding confirm_fill
  fill-IsConsistent pid price rate now t r found pending c =
      rw (found, confirm_fill) (confirm_entry-IsConsistent pid price _ now r t found pending c)

  -- The counter of a consistent tracker is positive at a record that counts.
  counted_pos :
      (t : Tracker N) (pid : String) (r : PositionRecord N)
      → get_position t pid ≡ some r
      → IsConsistent t
      → counts_for r.condition_id r ≡ true
      → 0 < get_or_zero t.event_fills r.condition_id
  counted_pos t pid r found c e = omega (
    arith,
    c.fills_exact r.condition_id,
    count_if-pos (counts_for r.condition_id) t.positions pid r found e,
  )

  lower_fills_lem :
      (cid : String) (t : Tracker N)
      → 0 < get_or_zero t.event_fills cid
      → lower_fills cid t
        ≡ record t { event_fills = put t.event_fills cid (get_or_zero t.event_fills cid - 1) }
  unfolding lower_fills
  lower_fills_lem cid t h = ground arith

  reject_transition-IsConsistent :
      (pid : String) (now : ℕ) (t : Tracker N) (fs : Dict ℕ) (r : PositionRecord N)
      → get_position t pid ≡ some r
      → r.state ≡ pending_open
      → ((j : String)
          → get_or_zero fs j + one_if (str_eq r.condition_id j) ≡ get_or_zero t.event_fills j)
      → IsConsistent t
      → IsConsistent (reject_transition pid r now (record t { event_fills = fs })).1
  unfolding reject_transition store_record allowed
  reject_transition-IsConsistent pid now t fs r found pending lowered c =
      elim (transition_to-cases closed r) [
        | inl (fine, e) ↦
            rw (e, reject_transition)
              (update-Consistent pid r (record r { state = closed; closed_at = some now }) found
                (record { keyed = (c.stamps pid r found).keyed; stamped = refl })
                (λ j. ground (arith, lowered j, (c.stamps pid r found).stamped)) refl c)
        | inr (bad, e) ↦ absurd (ground arith)
      ]

  pub reject-IsConsistent :
      (pid : String) (now : ℕ) (t : Tracker N) (r : PositionRecord N)
      → get_position t pid ≡ some r
      → r.state ≡ pending_open
      → IsConsistent t
      → IsConsistent (reject_fill pid now t).1
  unfolding reject_fill
  reject-IsConsistent pid now t r found pending c =
      let counted : counts_for r.condition_id r ≡ true = ground (arith, eq_refl r.condition_id) in
      let pos = counted_pos t pid r found c counted in
      rw (found, reject_fill)
        (rw (lower_fills_lem r.condition_id t pos) (
          reject_transition-IsConsistent pid now t _ r found pending
            (λ j. get_or_zero-lower t.event_fills r.condition_id j pos) c))
