-- ===== src/Orchestrator/Restore/Found.antt =====
-- What the restored state holds of the positions that were loaded.
use polyfast.Base.{
  ℕ, ◌+◌, String, true, false, ◌≡◌, ◌≢◌, inl, inr, Option, none, some, List, [], ◌∷◌, if◌then◌else◌,
  Bool-cases, refl, sym, ap, ◌∙◌, subst, arith, is_some, ok,
}
use polyfast.Base.Dict.{get, put, get-put_self, get-put_ne}
use polyfast.Base.Lists.{IsIn, in_head, in_tail, length}
use polyfast.Float.{Float}
use polyfast.Position.State.{pending_open}
use polyfast.Position.Record.{PositionRecord, is_pending}
use polyfast.Position.Tracker.{Tracker, get_position, restore_position, lower_fills, store_record}
use polyfast.Position.Tracker.Behaviour.{rejected_record, reject_fill-pending}
use polyfast.Claims.Manager.{Claims}
use polyfast.Orchestrator.Restore.{
  Loaded, App, Report, Restoring, after_reject, restore_one, restore_positions, verify_balance,
  finish_restore, restore_state, restore_claims,
}

module _ {N : Type 0} ⦃f : Float N⦄ where
  -- The record that a loaded one becomes: a pending one is rejected.
  unfoldable pub restored_record : ℕ → PositionRecord N → PositionRecord N
  restored_record now p = if is_pending p then rejected_record now p else p

-- No two positions have the same identifier.
pub data AreDistinct {N : Type 0} : List (PositionRecord N) → Type 0 where
  none_same : AreDistinct []
  more_distinct :
      {p : PositionRecord N} {ps : List (PositionRecord N)}
      → ((q : PositionRecord N) → IsIn q ps → q.position_id ≢ p.position_id)
      → AreDistinct ps
      → AreDistinct (p ∷ ps)

module _ {N : Type 0} ⦃f : Float N⦄ where
  -- One turn goes through and leaves the record under its identifier.
  record IsTurn (now : ℕ) (p : PositionRecord N) (s s' : Restoring N) : Type 0 where
    turn : restore_one now p s ≡ (none, s')
    here : get s'.tracker.positions p.position_id ≡ some (restored_record now p)
    others :
        (j : String) → p.position_id ≢ j → get s'.tracker.positions j ≡ get s.tracker.positions j
    counts : s'.restored + s'.cleaned ≡ s.restored + s.cleaned + 1

  pending-state : (p : PositionRecord N) → is_pending p ≡ true → p.state ≡ pending_open
  pending-state p h = ground arith

  lower_fills-positions :
      (cid : String) (t : Tracker N) → (lower_fills cid t).positions ≡ t.positions
  unfolding lower_fills
  lower_fills-positions cid t = ground arith

  restore_position-positions :
      (p : PositionRecord N) (t : Tracker N)
      → (restore_position p t).positions ≡ put t.positions p.position_id p
  unfolding restore_position
  restore_position-positions p t = refl

  restore_position-found :
      (p : PositionRecord N) (t : Tracker N)
      → get_position (restore_position p t) p.position_id ≡ some p
  unfolding restore_position
  restore_position-found p t = get-put_self t.positions p.position_id p

  -- The tracker after a pending position was restored and rejected.
  cleaned_tracker : ℕ → PositionRecord N → Tracker N → Tracker N
  cleaned_tracker now p t =
      store_record p.position_id (rejected_record now p)
        (lower_fills p.condition_id (restore_position p t))

  pending_turn :
      (now : ℕ) (p : PositionRecord N) (s : Restoring N)
      → is_pending p ≡ true
      → restore_one now p s
        ≡ (none, record s { cleaned = s.cleaned + 1; tracker = cleaned_tracker now p s.tracker })
  unfolding restore_one cleaned_tracker
  pending_turn now p s waits = rw waits (
      rw
        (
          reject_fill-pending p.position_id now p (restore_position p s.tracker)
              (restore_position-found p s.tracker) (pending-state p waits),
          after_reject,
        )
        refl)

  cleaned_tracker-positions :
      (now : ℕ) (p : PositionRecord N) (t : Tracker N)
      → (cleaned_tracker now p t).positions
        ≡ put (put t.positions p.position_id p) p.position_id (rejected_record now p)
  unfolding cleaned_tracker store_record
  cleaned_tracker-positions now p t =
      ap (λ d. put d p.position_id (rejected_record now p))
        (lower_fills-positions p.condition_id (restore_position p t)
          ∙ restore_position-positions p t)

  restore_one-pending :
      (now : ℕ) (p : PositionRecord N) (s : Restoring N)
      → is_pending p ≡ true
      → (s' : Restoring N) × IsTurn now p s s'
  unfolding restored_record
  restore_one-pending now p s waits =
      let pid = p.position_id in
      let r = rejected_record now p in
      let d = put s.tracker.positions pid p in
      let wrote = cleaned_tracker-positions now p s.tracker in
      (
        record s { cleaned = s.cleaned + 1; tracker = cleaned_tracker now p s.tracker },
        record {
          turn = pending_turn now p s waits;
          here = rw waits (ap (λ e. get e pid) wrote ∙ get-put_self d pid r);
          others = λ j other.
              ap (λ e. get e j) wrote
              ∙ get-put_ne d pid j r other
              ∙ get-put_ne s.tracker.positions pid j p other;
          counts = omega arith;
        },
      )

  restore_one-kept :
      (now : ℕ) (p : PositionRecord N) (s : Restoring N)
      → is_pending p ≡ false
      → (s' : Restoring N) × IsTurn now p s s'
  unfolding restore_one restored_record restore_position
  restore_one-kept now p s other = (
    record s { restored = s.restored + 1; tracker = restore_position p s.tracker },
    record {
      turn = rw other refl;
      here = rw other (get-put_self s.tracker.positions p.position_id p);
      others = λ j ne. get-put_ne s.tracker.positions p.position_id j p ne;
      counts = omega arith;
    },
  )

  restore_one-IsTurn :
      (now : ℕ) (p : PositionRecord N) (s : Restoring N) → (s' : Restoring N) × IsTurn now p s s'
  restore_one-IsTurn now p s = elim (Bool-cases (is_pending p)) [
    | inl waits ↦ restore_one-pending now p s waits
    | inr other ↦ restore_one-kept now p s other
  ]

  -- The loop goes through; every position is under its identifier as `restored_record`, and nothing
  -- is written under another identifier.
  record IsRestored (now : ℕ) (ps : List (PositionRecord N)) (s s' : Restoring N) : Type 0 where
    through : restore_positions now ps s ≡ (none, s')
    there :
        (p : PositionRecord N)
        → IsIn p ps
        → get s'.tracker.positions p.position_id ≡ some (restored_record now p)
    apart :
        (j : String)
        → ((p : PositionRecord N) → IsIn p ps → p.position_id ≢ j)
        → get s'.tracker.positions j ≡ get s.tracker.positions j
    total : s'.restored + s'.cleaned ≡ s.restored + s.cleaned + length ps

  restore_positions-turn :
      (now : ℕ) (p : PositionRecord N) (ps : List (PositionRecord N)) (s s' : Restoring N)
      → restore_one now p s ≡ (none, s')
      → restore_positions now (p ∷ ps) s ≡ restore_positions now ps s'
  unfolding restore_positions
  restore_positions-turn now p ps s s' e =
      rw (e, restore_positions) (ap (λ d. restore_positions now ps d.1) e)

  restore_positions-IsRestored :
      (now : ℕ) (ps : List (PositionRecord N)) (s : Restoring N)
      → AreDistinct ps
      → (s' : Restoring N) × IsRestored now ps s s'
  unfolding restore_positions
  restore_positions-IsRestored now [] s d = (
    s,
    record { through = refl; there = λ p i. elim i [ ]; apart = λ j h. refl; total = omega arith },
  )
  restore_positions-IsRestored now (p ∷ ps) s (more_distinct fresh d) =
      let (s₁, first) = restore_one-IsTurn now p s in
      let (s₂, rest) = restore_positions-IsRestored now ps s₁ d in
      (
        s₂,
        record {
          through = restore_positions-turn now p ps s s₁ first.turn ∙ rest.through;
          there = λ q i. elim i [
            | in_head same ↦
                subst (λ r. get s₂.tracker.positions r.position_id ≡ some (restored_record now r))
                  (sym same) (rest.apart p.position_id fresh ∙ first.here)
            | in_tail j ↦ rest.there q j
          ];
          apart =
              λ j h. rest.apart j (λ q i. h q (in_tail i)) ∙ first.others j (h p (in_head refl));
          total = omega (arith, rest.total, first.counts);
        },
      )

  verify_balance-given :
      (reply : Option (N × Option N)) (now : ℕ) (c : Claims N)
      → (verify_balance reply now c).0 ≡ is_some reply
  unfolding verify_balance
  verify_balance-given none now c = refl
  verify_balance-given (some (a, t)) now c = refl

  -- With positions of different identifiers, the restore at startup raises nothing and reports each
  -- position as restored or cleaned; every one is found under its identifier, as it was saved, or
  -- rejected if it was pending, and trading is enabled where the balance was verified, and only there.
  pub restore_state-restores :
      (upper : String → String) (l : Loaded N) (reply : Option (N × Option N)) (now : ℕ) (a : App N)
      → AreDistinct l.positions
      → let done = restore_state upper l reply now a in
        (report : Report) × (done.0 ≡ ok report)
        × (report.positions_restored + report.pending_cleaned ≡ length l.positions)
        × ((p : PositionRecord N)
            → IsIn p l.positions
            → get_position done.1.tracker p.position_id ≡ some (restored_record now p))
        × (done.1.trading_enabled ≡ is_some reply)
  unfolding restore_state finish_restore
  restore_state-restores upper l reply now a distinct =
      let start : Restoring N = record { restored = 0; cleaned = 0; tracker = a.tracker } in
      let (s', all) = restore_positions-IsRestored now l.positions start distinct in
      rw (all.through, restore_state)
        (
          _,
          refl,
          omega (arith, all.total),
          all.there,
          verify_balance-given reply now (restore_claims l.claims a.claims),
        )
