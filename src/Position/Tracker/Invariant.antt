-- ===== src/Position/Tracker/Invariant.antt =====
-- The consistency of the counters under closes, and under any sequence of calls.
use polyfast.Base.{
  ℕ, ok, err, invalid_transition, ◌⊎◌, String, true, false, ◌≡◌, ◌≢◌, refl, Option, some, List, ◌∙◌,
  arith, Option-cases, inl, inr,
}
use polyfast.Float.{Float}
use polyfast.Position.State.{
  pending_open, closing_requested, closed, allowed, CloseReason, ForceSellTrigger,
}
use polyfast.Position.Record.{
  PositionRecord, transition_to, transition_to-cases, is_closed, is_pending,
}
use polyfast.Position.Fees.{calculate_exit}
use polyfast.Position.Tracker.{
  Tracker, get_position, request_transition, finish_close, close_transition, request_close,
  confirm_close, persist, store_record, write_exit,
}
use polyfast.Position.Tracker.Discipline.{
  IsConsistent, Step, create, restore, fill, reject, request, close, Reach, here, next,
}
use polyfast.Position.Tracker.Updates.{update-Consistent}
use polyfast.Position.Tracker.Orders.{
  create-IsConsistent, restore-IsConsistent, fill-IsConsistent, reject-IsConsistent,
}

module _ {N : Type 0} ⦃f : Float N⦄ where
  -- A step that keeps the identity and the stamp of a record that is not pending.
  pub keep-IsConsistent :
      (pid : String) (old new : PositionRecord N) (t : Tracker N)
      → get_position t pid ≡ some old
      → new.position_id ≡ old.position_id
      → new.condition_id ≡ old.condition_id
      → new.opened_at ≡ old.opened_at
      → is_pending old ≡ false
      → is_pending new ≡ false
      → (is_closed old ≡ true → is_closed new ≡ true)
      → IsConsistent t
      → IsConsistent (store_record pid new t)
  unfolding store_record
  keep-IsConsistent pid old new t found key cond opened live live' shut c =
      update-Consistent pid old new found
        (record {
          keyed = key ∙ (c.stamps pid old found).keyed;
          stamped = ground (arith, (c.stamps pid old found).stamped, shut);
        })
        (λ j. ground (arith, (c.stamps pid old found).stamped, shut)) (ground arith) c

  request_transition-IsConsistent :
      (pid : String) (reason : CloseReason) (triggers : List ForceSellTrigger) (price : N) (now : ℕ)
      (r : PositionRecord N) (t : Tracker N)
      → get_position t pid ≡ some r
      → IsConsistent t
      → IsConsistent (request_transition pid reason triggers price now r t).1
  unfolding request_transition persist store_record allowed
  request_transition-IsConsistent pid reason triggers price now r t found c =
      elim (transition_to-cases closing_requested r) [
        | inl (fine, e) ↦
            rw (e, request_transition)
              (keep-IsConsistent pid r
                (record r {
                  state = closing_requested;
                  close_reason = some reason;
                  close_trigger_set = triggers;
                  close_triggered_at = some now;
                  close_requested_price = price;
                })
                t found refl refl refl (ground arith) refl (ground arith) c)
        | inr (bad, e) ↦ rw (e, request_transition) c
      ]

  -- A close ends in `closed`, with the record as it was otherwise, or is refused.
  close_transition-cases :
      (r : PositionRecord N)
      → (close_transition r ≡ ok (record r { state = closed }))
        ⊎ (close_transition r ≡ err invalid_transition)
  unfolding close_transition transition_to allowed
  close_transition-cases r = ground arith

  finish_close-IsConsistent :
      (pid : String) (price rate : N) (now : ℕ) (r : PositionRecord N) (t : Tracker N)
      → get_position t pid ≡ some r
      → r.state ≢ pending_open
      → IsConsistent t
      → IsConsistent (finish_close pid price rate now r t).1
  unfolding finish_close write_exit persist store_record
  finish_close-IsConsistent pid price rate now r t found live c = elim (close_transition-cases r) [
    | inl e ↦
        rw (e, finish_close)
          (keep-IsConsistent pid r
            (write_exit price (calculate_exit rate r.net_position_shares price) now
              (record r { state = closed }))
            t found refl refl refl (ground arith) refl (ground arith) c)
    | inr e ↦ rw (e, finish_close) c
  ]

  pub request-IsConsistent :
      (pid : String) (reason : CloseReason) (triggers : List ForceSellTrigger) (price : N) (now : ℕ)
      (t : Tracker N)
      → IsConsistent t
      → IsConsistent (request_close pid reason triggers price now t).1
  unfolding request_close
  request-IsConsistent pid reason triggers price now t c =
      elim (Option-cases (get_position t pid)) [
        | inl missing ↦ rw (missing, request_close) c
        | inr (r, found) ↦
            rw (found, request_close)
              (request_transition-IsConsistent pid reason triggers price now r t found c)
      ]

  pub close-IsConsistent :
      (pid : String) (price : N) (rate : Option N) (now : ℕ) (t : Tracker N) (r : PositionRecord N)
      → get_position t pid ≡ some r
      → r.state ≢ pending_open
      → IsConsistent t
      → IsConsistent (confirm_close pid price rate now t).1
  unfolding confirm_close
  close-IsConsistent pid price rate now t r found live c =
      rw (found, confirm_close) (finish_close-IsConsistent pid price _ now r t found live c)

  Step-IsConsistent : {t u : Tracker N} → Step t u → IsConsistent t → IsConsistent u
  Step-IsConsistent {t} (create pid now asset side cid token amount fresh e) c =
      rw e (create-IsConsistent pid now asset side cid token amount t fresh c)
  Step-IsConsistent {t} (restore r fresh fits filled e) c =
      rw e (restore-IsConsistent r t fresh fits filled c)
  Step-IsConsistent {t} (fill pid price rate now r found pending e) c =
      rw e (fill-IsConsistent pid price rate now t r found pending c)
  Step-IsConsistent {t} (reject pid now r found pending e) c =
      rw e (reject-IsConsistent pid now t r found pending c)
  Step-IsConsistent {t} (request pid reason triggers price now e) c =
      rw e (request-IsConsistent pid reason triggers price now t c)
  Step-IsConsistent {t} (close pid price rate now r found live e) c =
      rw e (close-IsConsistent pid price rate now t r found live c)

  -- After any sequence of the tracker's calls, in which a new identifier is not in use, fills and
  -- rejections meet pending orders, closes meet orders that are not pending, and a restored record
  -- is pending or was filled: if the tracker was consistent before, each event's fill counter is
  -- the number of its orders that were not rejected, the session's counter is the number of filled
  -- orders, and every record stands under its own identifier with a stamp that fits its state.
  pub Reach-IsConsistent : {t u : Tracker N} → Reach t u → IsConsistent t → IsConsistent u
  Reach-IsConsistent here c = c
  Reach-IsConsistent (next r st) c = Step-IsConsistent st (Reach-IsConsistent r c)
