-- ===== src/Exit/Executor/Retries.antt =====
-- `ExitExecutor.execute_close_with_retry` and its intervals (backend/execution/exit_executor.py). The
-- clock counts milliseconds; the exchange's replies are numbered by the attempt.
use polyfast.Base.{
  ℕ, zero, suc, ◌+◌, String, Bool, true, false, ◌≡◌, ◌⊎◌, inl, inr, Option, none, some,
  if◌then◌else◌, Result, ok, err, refl, ap, ◌∙◌, arith, if-cases,
}
use polyfast.Float.{Float}
use polyfast.Balance.{FetchReply}
use polyfast.Position.State.{
  CloseReason, take_profit, stop_loss, force_sell, manual_close, expiry, claim, system_shutdown,
  error_recovery, closed,
}
use polyfast.Position.Record.{PositionRecord, is_open}
use polyfast.Position.Tracker.{get_position}
use polyfast.Exit.Evaluator.{is_take_profit}
use polyfast.Exit.Executor.{SellConfig, Seller, SellReply, takes_back, execute_close}
use polyfast.Exit.Executor.Outcome.{execute_close-latch}

-- `_retry_intervals`
pub record Intervals : Type 0 where
  pub tp_ms : ℕ
  pub sl_ms : ℕ
  pub fs_ms : ℕ
  pub manual_close_ms : ℕ
  pub expiry_ms : ℕ
  pub shutdown_ms : ℕ

-- `get_retry_interval_ms`; a reason without an interval has the default.
unfoldable pub get_retry_interval_ms : Intervals → CloseReason → ℕ
get_retry_interval_ms i take_profit = i.tp_ms
get_retry_interval_ms i stop_loss = i.sl_ms
get_retry_interval_ms i force_sell = i.fs_ms
get_retry_interval_ms i manual_close = i.manual_close_ms
get_retry_interval_ms i expiry = i.expiry_ms
get_retry_interval_ms i system_shutdown = i.shutdown_ms
get_retry_interval_ms i claim = 400
get_retry_interval_ms i error_recovery = 400

-- `position.close_reason or CloseReason.MANUAL_CLOSE`
abbrev pub reason_or_manual : Option CloseReason → CloseReason
reason_or_manual none = manual_close
reason_or_manual (some r) = r

-- `position.is_open` of the tracker's record
unfoldable pub is_open_again : {N : Type 0} → String → Seller N → Bool
is_open_again pid s = elim (get_position s.tracker pid) [ none ↦ false | some r ↦ is_open r ]

module _ {N : Type 0} ⦃f : Float N⦄ (c : SellConfig N) (pid : String) (price : N)
    (wrapper_set : Bool) (sells : ℕ → SellReply N) (fetched : ℕ → FetchReply N) (interval : ℕ) where
  -- The attempts that are left, from the given one on.
  unfoldable pub close_attempts : ℕ → ℕ → ℕ → Seller N → Result Bool × Seller N
  close_attempts zero attempt now s = (ok false, s)
  close_attempts (suc left) attempt now s =
      let (done, s') =
        execute_close c pid now price wrapper_set (sells attempt) (fetched attempt) s in
      elim done [
        | err e ↦ (err e, s')
        | ok success ↦
            let rest = close_attempts left (attempt + 1) (now + interval) s' in
            if success then (ok true, s') else if is_open_again pid s' then (ok false, s') else rest
      ]

-- `execute_close_with_retry` on the record that the tracker holds.
unfoldable pub execute_close_with_retry :
    {N : Type 0} ⦃f : Float N⦄
    → SellConfig N
    → Intervals
    → PositionRecord N
    → N
    → Option ℕ
    → Bool
    → (ℕ → SellReply N)
    → (ℕ → FetchReply N)
    → ℕ
    → Seller N
    → Result Bool × Seller N
execute_close_with_retry c i r price max_retries wrapper_set sells fetched now s =
    close_attempts c r.position_id price wrapper_set sells fetched
      (get_retry_interval_ms i (reason_or_manual r.close_reason))
      (elim max_retries [ none ↦ c.max_close_retries | some n ↦ n ]) 0 now s

-- The call returns: True with the position closed, or False; and the close's reason and triggers stay.
pub record Keeps {N : Type 0} (pid : String) (r : PositionRecord N) (done : Result Bool × Seller N)
    : Type 0 where
  pub record_after : PositionRecord N
  pub found_after : get_position done.1.tracker pid ≡ some record_after
  pub reason_kept : record_after.close_reason ≡ r.close_reason
  pub triggers_kept : record_after.close_trigger_set ≡ r.close_trigger_set
  pub outcome : ((done.0 ≡ ok true) × (record_after.state ≡ closed)) ⊎ (done.0 ≡ ok false)

module _ {N : Type 0} ⦃f : Float N⦄ (c : SellConfig N) (pid : String) (price : N)
    (wrapper_set : Bool) (sells : ℕ → SellReply N) (fetched : ℕ → FetchReply N) (interval : ℕ) where
  not_taken_back :
      (r : PositionRecord N) → is_take_profit r.close_reason ≡ false → takes_back c r price ≡ false
  unfolding takes_back
  not_taken_back r h = ground arith

  Keeps-later :
      (r r' : PositionRecord N) (done : Result Bool × Seller N)
      → r'.close_reason ≡ r.close_reason
      → r'.close_trigger_set ≡ r.close_trigger_set
      → Keeps pid r' done
      → Keeps pid r done
  Keeps-later r r' done reason triggers k = record {
    record_after = k.record_after;
    found_after = k.found_after;
    reason_kept = k.reason_kept ∙ reason;
    triggers_kept = k.triggers_kept ∙ triggers;
    outcome = k.outcome;
  }

  close_attempts-Keeps :
      (left attempt now : ℕ) (s : Seller N) (r : PositionRecord N)
      → get_position s.tracker pid ≡ some r
      → is_take_profit r.close_reason ≡ false
      → Keeps pid r
          (close_attempts c pid price wrapper_set sells fetched interval left attempt now s)
  unfolding close_attempts
  close_attempts-Keeps zero attempt now s r found other = record {
    record_after = r;
    found_after = found;
    reason_kept = refl;
    triggers_kept = refl;
    outcome = inr refl;
  }
  close_attempts-Keeps (suc left) attempt now s r found other =
      let step = execute_close c pid now price wrapper_set (sells attempt) (fetched attempt) s in
      let (r', found', reason, triggers, ends) =
        execute_close-latch c pid now price wrapper_set (sells attempt) (fetched attempt) s r found
          (not_taken_back r other) in
      elim ends [
        | inl (yes_, is_closed_) ↦
            rw (yes_, close_attempts)
              (record {
                record_after = r';
                found_after = found';
                reason_kept = reason;
                triggers_kept = triggers;
                outcome = inl (refl, is_closed_);
              })
        | inr (no_, how) ↦
            let rest =
              close_attempts-Keeps left (attempt + 1) (now + interval) step.1 r' found'
                (ap is_take_profit reason ∙ other) in
            rw (no_, close_attempts)
              (if-cases (Keeps pid r) (is_open_again pid step.1) _ _
                (λ h. record {
                  record_after = r';
                  found_after = found';
                  reason_kept = reason;
                  triggers_kept = triggers;
                  outcome = inr refl;
                })
                (λ h. Keeps-later r r' _ reason triggers rest))
      ]

-- Whatever the exchange replies, the retries of a close that is no take-profit return, True with the
-- position closed or False, and the reason and the trigger set of the close stay.
pub execute_close_with_retry-Keeps :
    {N : Type 0} ⦃f : Float N⦄ (c : SellConfig N) (i : Intervals) (r : PositionRecord N) (price : N)
    (max_retries : Option ℕ) (wrapper_set : Bool) (sells : ℕ → SellReply N)
    (fetched : ℕ → FetchReply N) (now : ℕ) (s : Seller N)
    → get_position s.tracker r.position_id ≡ some r
    → is_take_profit r.close_reason ≡ false
    → Keeps r.position_id r
        (execute_close_with_retry c i r price max_retries wrapper_set sells fetched now s)
unfolding execute_close_with_retry
execute_close_with_retry-Keeps c i r price max_retries wrapper_set sells fetched now s found other =
    close_attempts-Keeps c r.position_id price wrapper_set sells fetched
      (get_retry_interval_ms i (reason_or_manual r.close_reason))
      (elim max_retries [ none ↦ c.max_close_retries | some n ↦ n ]) 0 now s r found other
