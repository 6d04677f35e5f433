-- ===== src/Discovery/Loop/Slot.antt =====
-- The retries end with the slot, and what the loop does then.
use polyfast.Base.{
  ℕ, zero, suc, ◌+◌, ◌*◌, ◌/◌, ◌≤◌, ◌<◌, Bool, true, false, not, ◌≡◌, ◌⊎◌, inl, inr, refl, ap, ◌∙◌,
  Option, some, List, [], ◌∷◌, arith, if-cases,
}
use polyfast.Registry.Service.{DiscoveredEvent}
use polyfast.Ptb.Fetcher.{wait_of}
use polyfast.Orchestrator.Slots.{current_slot_start, slot_remaining}
use polyfast.Discovery.Loop.{
  Scanning, ScanState, events_of, is_found, in_slot, wait_in_slot, after_scan, scan_from,
  scan_with_retry, sleep_out, loop_turn,
}

-- A wait takes its time and ends in the slot, or it ends early, where the slot has ended.
WaitEnds : ℕ → ℕ → ℕ → Bool × ℕ → Type 0
WaitEnds slot now left p =
    ((p.0 ≡ true) × (now + left ≤ p.1) × (in_slot slot (p.1) ≡ true))
    ⊎ ((p.0 ≡ false) × (now < p.1) × (in_slot slot (p.1) ≡ false))

wait_in_slot_ends :
    (c : Scanning) (attempt slot left now : ℕ)
    → WaitEnds slot now (suc left) (wait_in_slot c attempt slot (suc left) now)
unfolding wait_in_slot WaitEnds
wait_in_slot_ends c attempt slot zero now =
    if-cases (WaitEnds slot now 1) (in_slot slot (now + 1 + c.lag attempt zero)) _ _
      (λ here. inl (refl, omega arith, here)) (λ gone. inr (refl, omega arith, gone))
wait_in_slot_ends c attempt slot (suc left) now =
    let woken = now + 1 + c.lag attempt (suc left) in
    if-cases (WaitEnds slot now (suc (suc left))) (in_slot slot woken) _ _
      (λ here. elim (wait_in_slot_ends c attempt slot left woken) [
        | inl (stays, later, still) ↦ inl (stays, omega arith, still)
        | inr (leaves, later, out) ↦ inr (leaves, omega arith, out)
      ])
      (λ gone. inr (refl, omega arith, gone))

wait_ends :
    (c : Scanning) (attempt slot left now : ℕ)
    → 0 < left
    → WaitEnds slot now left (wait_in_slot c attempt slot left now)
wait_ends c attempt slot zero now h = absurd (omega arith)
wait_ends c attempt slot (suc left) now h = wait_in_slot_ends c attempt slot left now

-- A time from the slot's start on that is not in the slot is after its end.
slot_later : (k now : ℕ) → in_slot (k * 300) now ≡ false → k * 300 ≤ now → k * 300 + 300 ≤ now
unfolding current_slot_start
slot_later k now h l = ground arith

slot_before : (k now : ℕ) → in_slot (k * 300) now ≡ true → now < k * 300 + 300
unfolding current_slot_start
slot_before k now h = ground arith

-- How the scans of a slot end: some attempt found events, which are the result; or no attempt of the
-- ones that were made did, and the slot has ended.
pub data Scanned (c : Scanning) (slot : ℕ) : List DiscoveredEvent → ScanState → Type 0 where
  found_at :
      {events : List DiscoveredEvent} {s : ScanState} (n : ℕ)
      → events ≡ events_of (c.replies n)
      → is_found events ≡ true
      → Scanned c slot events s
  ended :
      {events : List DiscoveredEvent} {s : ScanState}
      → events ≡ []
      → slot + 300 ≤ s.now
      → Scanned c slot events s

abbrev Returns : Scanning → ℕ → Option (List DiscoveredEvent × ScanState) → Type 0
Returns c slot o =
    (events : List DiscoveredEvent) × (s : ScanState) × (o ≡ some (events, s))
    × Scanned c slot events s

-- The scans of a slot from an attempt on, one after another: the attempt and its time, the number of
-- scans, the events that the last one found, and the time when they end. Each scan starts in the
-- slot; one that finds nothing is followed by its wait and the next attempt, if the slot lasts.
pub data Scans (c : Scanning) (slot : ℕ) : ℕ → ℕ → ℕ → List DiscoveredEvent → ℕ → Type 0 where
  slot_over :
      {attempt now n last : ℕ} {events : List DiscoveredEvent}
      → slot + 300 ≤ now
      → n ≡ 0
      → events ≡ []
      → last ≡ now
      → Scans c slot attempt now n events last
  scan_found :
      {attempt now n last : ℕ} {events : List DiscoveredEvent}
      → in_slot slot now ≡ true
      → events ≡ events_of (c.replies attempt)
      → is_found events ≡ true
      → n ≡ 1
      → last ≡ now + c.latency attempt
      → Scans c slot attempt now n events last
  scan_again :
      {attempt now n m woken last : ℕ} {events : List DiscoveredEvent}
      → in_slot slot now ≡ true
      → is_found (events_of (c.replies attempt)) ≡ false
      → woken
        ≡ (wait_in_slot c attempt slot
            (wait_of c.schedule c.steady attempt)
            (now + c.latency attempt)).1
      → Scans c slot (suc attempt) woken m events last
      → n ≡ suc m
      → Scans c slot attempt now n events last

Scans-Scanned :
    {c : Scanning} {slot attempt now n last : ℕ} {events : List DiscoveredEvent} (s : ScanState)
    → Scans c slot attempt now n events last
    → last ≡ s.now
    → Scanned c slot events s
Scans-Scanned s (slot_over late none_ nothing end_) e = ended nothing (omega (arith, late, end_, e))
Scans-Scanned s (scan_found {attempt} here same found one end_) e = found_at attempt same found
Scans-Scanned s (scan_again here nothing next rest more) e = Scans-Scanned s rest e

-- Found events are some, and where none are the slot is over.
Scans-found :
    {c : Scanning} {slot attempt now n last : ℕ} {events : List DiscoveredEvent}
    → Scans c slot attempt now n events last
    → (is_found events ≡ true) ⊎ ((events ≡ []) × (slot + 300 ≤ last))
Scans-found (slot_over late none_ nothing end_) = inr (nothing, omega (arith, late, end_))
Scans-found (scan_found here same found one end_) = inl found
Scans-found (scan_again here nothing next rest more) = Scans-found rest

-- The scans end as told, and the counter of scans counts them.
Traced : Scanning → ℕ → ℕ → ScanState → Option (List DiscoveredEvent × ScanState) → Type 0
Traced c slot attempt s o =
    (n : ℕ) × (events : List DiscoveredEvent) × (s' : ScanState) × (o ≡ some (events, s'))
    × Scans c slot attempt s.now n events s'.now
    × (s'.scan_count ≡ s.scan_count + n)

after_scan-now :
    (events : List DiscoveredEvent) (now : ℕ) (s : ScanState) → (after_scan events now s).now ≡ now
unfolding after_scan
after_scan-now [] now s = refl
after_scan-now (e ∷ es) now s = refl

after_scan-scan_count :
    (events : List DiscoveredEvent) (now : ℕ) (s : ScanState)
    → (after_scan events now s).scan_count ≡ s.scan_count + 1
unfolding after_scan
after_scan-scan_count [] now s = refl
after_scan-scan_count (e ∷ es) now s = refl

module _ (c : Scanning) (positive : (n : ℕ) → 0 < wait_of c.schedule c.steady n) (k : ℕ) where
  scan_from-Traced :
      (fuel attempt : ℕ) (s : ScanState)
      → k * 300 ≤ s.now
      → k * 300 + 300 < s.now + fuel
      → 0 < fuel
      → Traced c (k * 300) attempt s (scan_from fuel c (k * 300) attempt s)
  unfolding scan_from WaitEnds Traced
  scan_from-Traced zero attempt s l enough h = absurd (omega arith)
  scan_from-Traced (suc fuel) attempt s l enough h =
      let events = events_of (c.replies attempt) in
      let s' = after_scan events (s.now + c.latency attempt) s in
      let at = after_scan-now events (s.now + c.latency attempt) s in
      let counted = after_scan-scan_count events (s.now + c.latency attempt) s in
      let wait = wait_of c.schedule c.steady attempt in
      let p = wait_in_slot c attempt (k * 300) wait s'.now in
      let t : ScanState = record s' { now = p.1 } in
      let ends = wait_ends c attempt (k * 300) wait s'.now (positive attempt) in
      let woken = ap (λ x. (wait_in_slot c attempt (k * 300) wait x).1) at in
      if-cases (Traced c (k * 300) attempt s) (not (in_slot (k * 300) s.now)) _ _
        (λ out. (
          0,
          [],
          s,
          refl,
          slot_over (slot_later k s.now (ground arith) l) refl refl refl,
          omega arith,
        ))
        λ here.
          if-cases (Traced c (k * 300) attempt s) (is_found events) _ _
            (λ found. (1, events, s', refl, scan_found (ground arith) refl found refl at, counted))
            λ nothing.
              if-cases (Traced c (k * 300) attempt s) (p.0) _ _
                (λ stays. elim ends [
                  | inl (_, later, still) ↦
                      let (m, es, u, e, run, more) =
                        scan_from-Traced fuel (suc attempt) t (omega (arith, at))
                          (omega (arith, at, positive attempt))
                          (omega (arith, at, slot_before k (p.1) still, positive attempt)) in
                      (
                        suc m,
                        es,
                        u,
                        e,
                        scan_again (ground arith) nothing woken run refl,
                        omega (arith, more, counted),
                      )
                  | inr (leaves, later, gone) ↦ absurd (ground arith)
                ])
                (λ leaves. elim ends [
                  | inl (stays, later, still) ↦ absurd (ground arith)
                  | inr (_, later, gone) ↦ (
                    1,
                    [],
                    t,
                    refl,
                    scan_again (ground arith) nothing woken
                        (slot_over (slot_later k (p.1) gone (omega (arith, at))) refl refl refl)
                        refl,
                    counted,
                  )
                ])

abbrev pub slot_of : ScanState → ℕ
slot_of s = current_slot_start s.now

module _ (c : Scanning) (positive : (n : ℕ) → 0 < wait_of c.schedule c.steady n) where
  scan_with_retry-Traced :
      (s : ScanState) → Traced c (slot_of s) 0 s (scan_with_retry 301 c (slot_of s) s)
  unfolding scan_with_retry current_slot_start
  scan_with_retry-Traced s =
      scan_from-Traced c positive (s.now / 300) 301 0 s (omega arith) (omega arith) (omega arith)

  -- With positive waits a slot's scans return within 301 attempts: with the events of some attempt that
  -- found any, or with none, where the slot has ended.
  pub scan_with_retry-Scanned :
      (s : ScanState) → Returns c (slot_of s) (scan_with_retry 301 c (slot_of s) s)
  unfolding Traced
  scan_with_retry-Scanned s =
      let (n, events, t, e, run, more) = scan_with_retry-Traced s in
      (events, t, e, Scans-Scanned t run refl)

  sleep_out-now : (s : ScanState) → (sleep_out s).now ≡ (s.now / 300 + 1) * 300
  unfolding sleep_out slot_remaining
  sleep_out-now s = omega arith

  sleep_out-scan_count : (s : ScanState) → (sleep_out s).scan_count ≡ s.scan_count
  unfolding sleep_out
  sleep_out-scan_count s = refl

  -- What a turn leaves for the next one, which starts at this state: the scans of the turn, and no
  -- other, have been counted. Where none found an event, the next turn is two slots later or more.
  abbrev pub NextTurn : ScanState → List DiscoveredEvent → ScanState → Type 0
  NextTurn s events s' =
      (slot_of s' ≡ s'.now)
      × ((n : ℕ) × (last : ℕ) × Scans c (slot_of s) 0 s.now n events last
          × (s'.scan_count ≡ s.scan_count + n)
          × (s'.now ≡ (last / 300 + 1) * 300)
          × ((is_found events ≡ true) ⊎ ((events ≡ []) × (slot_of s + 600 ≤ s'.now))))

  -- With positive waits a turn of the loop ends. Each of its scans starts in the slot of the turn, all
  -- but the last found nothing, and the result is what the last one found; the counter grows by
  -- their number. The next turn starts at the start of a slot, the first after the end of these
  -- scans. Where none of them found an event, that slot is at least two after this one: the slot in
  -- between is slept through, and no scan starts in it.
  pub loop_turn-skips :
      (s : ScanState)
      → (events : List DiscoveredEvent) × (s' : ScanState) × (loop_turn 301 c s ≡ some (events, s'))
        × NextTurn s events s'
  unfolding loop_turn current_slot_start Traced
  loop_turn-skips s =
      let (n, events, t, e, run, more) = scan_with_retry-Traced s in
      let later = sleep_out-now t in
      (
        events,
        sleep_out t,
        rw (e, loop_turn) refl,
        (
          ground arith,
          (
            n,
            t.now,
            run,
            sleep_out-scan_count t ∙ more,
            later,
            elim (Scans-found run) [
              | inl found ↦ inl found
              | inr (nothing, late) ↦ inr (nothing, ground arith)
            ],
          ),
        ),
      )
