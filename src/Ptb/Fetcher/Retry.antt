-- ===== src/Ptb/Fetcher/Retry.antt =====
-- The end of `PTBFetcher.fetch_ptb_with_retry`.
use polyfast.Base.{
  ℕ, zero, suc, ◌+◌, ◌≤◌, ◌<◌, String, true, false, ◌≡◌, ◌⊎◌, ◌||◌, ap, some, List, [], ◌∷◌, arith,
  refl, ok, inl, inr, Bool-cases, leb, if◌then◌else◌,
}
use polyfast.Base.Dict.{get, get-put_self}
use polyfast.Ptb.Record.{PtbRecord, failed, is_locked, record_failure}
use polyfast.Ptb.Fetcher.{
  SourceReply, found, not_found, PtbRecords, Fetched, record_of, get_or_create_record, fetch_ptb,
  wait_of, Retrying, give_up_ptb, retry_loop, fetch_ptb_with_retry,
}
use polyfast.Ptb.Fetcher.Lock.{attempted, fetch_ptb-unlocked}

-- Every wait of the schedule is positive.
unfoldable pub AllPositive : List ℕ → Type 0
AllPositive ws = (n : ℕ) → 0 < wait_of ws 1 n

wait_of-pos : (ws : List ℕ) (steady n : ℕ) → 0 < steady → AllPositive ws → 0 < wait_of ws steady n
unfolding wait_of AllPositive
wait_of-pos [] steady n h k = h
wait_of-pos (w ∷ ws) steady zero h k = k zero
wait_of-pos (w ∷ ws) steady (suc n) h k = wait_of-pos ws steady n h (λ m. k (suc m))

module _ {N : Type 0} where
  -- The call's record is the event's, and it is locked with a reply's value, or has failed.
  pub record Settled (c : Retrying N) (cid : String) (res : Fetched N) : Type 0 where
    pub final : PtbRecord N
    pub returned : res.0 ≡ ok final
    pub kept : get res.1 cid ≡ some final
    pub state :
        ((is_locked final ≡ true)
          × (n : ℕ) × (value : N) × (source : String) × (c.replies n ≡ found value source)
          × (final.ptb_value ≡ some value))
        ⊎ ((is_locked final ≡ false) × (final.status ≡ failed))

  give_up_ptb-Settled :
      (c : Retrying N) (cid asset : String) (d : PtbRecords N)
      → is_locked (record_of cid asset d) ≡ false
      → Settled c cid (give_up_ptb cid asset d)
  unfolding give_up_ptb
  give_up_ptb-Settled c cid asset d h =
      rw (h, give_up_ptb)
        (record {
          final = record_failure "Event expired before PTB acquired" (record_of cid asset d);
          returned = refl;
          kept = get-put_self d cid _;
          state = inr (refl, refl);
        })

  get-attempt :
      (cid asset : String) (reply : SourceReply N) (now : ℕ) (d : PtbRecords N)
      → is_locked (record_of cid asset d) ≡ false
      → get (fetch_ptb cid asset reply now d).1 cid
        ≡ some (attempted reply now (record_of cid asset d))
  get-attempt cid asset reply now d h =
      rw (fetch_ptb-unlocked cid asset reply now d h) (get-put_self d cid _)

  record_of-attempt :
      (cid asset : String) (reply : SourceReply N) (now : ℕ) (d : PtbRecords N)
      → is_locked (record_of cid asset d) ≡ false
      → record_of cid asset (fetch_ptb cid asset reply now d).1
        ≡ attempted reply now (record_of cid asset d)
  unfolding record_of
  record_of-attempt cid asset reply now d h =
      rw (get-attempt cid asset reply now d h, record_of) refl

  attempt-Settled :
      (c : Retrying N) (cid asset : String) (n now : ℕ) (d : PtbRecords N) (reply : SourceReply N)
      → c.replies n ≡ reply
      → is_locked (record_of cid asset d) ≡ false
      → let d' = (fetch_ptb cid asset reply now d).1 in
        is_locked (record_of cid asset d') ≡ true → Settled c cid (ok (record_of cid asset d'), d')
  attempt-Settled c cid asset n now d (found value source) given h k = record {
    final = attempted (found value source) now (record_of cid asset d);
    returned = ap ok (record_of-attempt cid asset (found value source) now d h);
    kept = get-attempt cid asset (found value source) now d h;
    state = unfold attempted in inl (refl, n, value, source, given, refl);
  }
  attempt-Settled c cid asset n now d (not_found error) given h k =
      absurd
        (unfold attempted in ground (arith, record_of-attempt cid asset (not_found error) now d h))

  -- One turn of the loop.
  turn :
      (fuel : ℕ) (c : Retrying N) (cid asset : String) (n now : ℕ) (d : PtbRecords N)
      → let woken = now + wait_of c.schedule c.steady n + c.lag n in
        let d' = (fetch_ptb cid asset (c.replies n) woken d).1 in
        retry_loop (suc fuel) c cid asset n now d ≡ (
          if leb c.event_end now
          then some (give_up_ptb cid asset d)
          else if leb c.event_end woken
          then some (give_up_ptb cid asset d)
          else if is_locked (record_of cid asset d')
          then some (ok (record_of cid asset d'), d')
          else retry_loop fuel c cid asset (n + 1) (woken + c.latency n) d')
  unfolding retry_loop
  turn fuel c cid asset n now d = refl

  retry_loop-Settled :
      (fuel : ℕ) (c : Retrying N) (cid asset : String) (n now : ℕ) (d : PtbRecords N)
      → 0 < c.steady
      → AllPositive c.schedule
      → c.event_end ≤ now + fuel
      → is_locked (record_of cid asset d) ≡ false
      → (res : Fetched N) × (retry_loop (suc fuel) c cid asset n now d ≡ some res)
        × Settled c cid res
  retry_loop-Settled zero c cid asset n now d steady waits enough fresh = (
    give_up_ptb cid asset d,
    ground (arith, turn zero c cid asset n now d),
    give_up_ptb-Settled c cid asset d fresh,
  )
  retry_loop-Settled (suc fuel) c cid asset n now d steady waits enough fresh =
      let woken = now + wait_of c.schedule c.steady n + c.lag n in
      let d' = (fetch_ptb cid asset (c.replies n) woken d).1 in
      let step = turn (suc fuel) c cid asset n now d in
      let later = wait_of-pos c.schedule c.steady n steady waits in
      elim (Bool-cases (leb c.event_end now || leb c.event_end woken)) [
        | inl over ↦
            (give_up_ptb cid asset d, ground (arith, step), give_up_ptb-Settled c cid asset d fresh)
        | inr running ↦ elim (Bool-cases (is_locked (record_of cid asset d'))) [
          | inl locked ↦ (
            (ok (record_of cid asset d'), d'),
            ground (arith, step),
            attempt-Settled c cid asset n woken d (c.replies n) refl fresh locked,
          )
          | inr unlocked ↦
              let rest =
                retry_loop-Settled fuel c cid asset (n + 1) (woken + c.latency n) d' steady waits
                  (omega (arith, later, enough)) unlocked in
              (rest.0, ground (arith, step, rest.1), rest.2)
        ]
      ]

  record_of-create :
      (cid asset : String) (d : PtbRecords N)
      → record_of cid asset (get_or_create_record cid asset d) ≡ record_of cid asset d
  unfolding get_or_create_record record_of
  record_of-create cid asset d = rw (get-put_self d cid (record_of cid asset d), record_of) refl

  -- With positive waits, as many turns as there are seconds to the event's end are enough: for an
  -- event whose price is not locked yet, the call returns, and its record is locked with a value
  -- that the source replied, or has failed.
  pub fetch_ptb_with_retry-Settled :
      (fuel : ℕ) (c : Retrying N) (cid asset : String) (now : ℕ) (d : PtbRecords N)
      → 0 < c.steady
      → AllPositive c.schedule
      → c.event_end ≤ now + fuel
      → is_locked (record_of cid asset d) ≡ false
      → (res : Fetched N) × (fetch_ptb_with_retry (suc fuel) c cid asset now d ≡ some res)
        × Settled c cid res
  unfolding fetch_ptb_with_retry
  fetch_ptb_with_retry-Settled fuel c cid asset now d steady waits enough fresh =
      let created = record_of-create cid asset d in
      let run =
        retry_loop-Settled fuel c cid asset 0 now (get_or_create_record cid asset d) steady waits
          enough (ground (arith, created, fresh)) in
      (run.0, ground (arith, run.1, fresh), run.2)
