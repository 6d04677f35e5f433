-- ===== src/Registry/Sync/Missing.antt =====
-- What a scan does to an event that it misses, and to the others.
use polyfast.Base.{
  ℕ, ◌+◌, String, false, not, ◌≡◌, ◌≢◌, none, some, List, [], ◌∷◌, arith, refl, if◌then◌else◌,
  eq_iff, str_eq, leb, ◌&&◌, ◌||◌, inl, inr, Bool-cases, ◌∙◌, subst, Option-cases,
}
use polyfast.Base.Dict.{Dict, get, get-put_self, get-put_ne, get-remove}
use polyfast.Base.Lists.{any}
use polyfast.Registry.Status.{inactive, RegistryRecord, moved, may_become, is_terminal}
use polyfast.Registry.Service.{Records, DiscoveredEvent, new_event}
use polyfast.Registry.Sync.Keyed.{
  IsKeyed, one_more, keyed-get, register-new, take_candidates-IsKeyed,
}
use polyfast.Registry.Sync.{
  SyncState, misses, is_seen, refound, take_candidate, take_candidates, is_skipped, is_removed,
  visit, sweep, sync, empty_result,
}

-- A visit of another record leaves the miss count alone.
misses-visit :
    (events : List DiscoveredEvent) (threshold now : ℕ) (r : RegistryRecord) (m : Dict ℕ)
    (cid : String)
    → r.condition_id ≢ cid
    → misses (visit events threshold now r m).1 cid ≡ misses m cid
unfolding visit misses
misses-visit events threshold now r m cid h =
    ground (arith, get-put_ne m r.condition_id cid (misses m r.condition_id + 1) h)

-- What a visit adds to the miss count of its own record.
pub misses-visit_self :
    (events : List DiscoveredEvent) (threshold now : ℕ) (r : RegistryRecord) (m : Dict ℕ)
    → misses (visit events threshold now r m).1 r.condition_id ≡ (
        if is_skipped events r || r.has_open_position
        then misses m r.condition_id
        else misses m r.condition_id + 1)
unfolding visit misses
misses-visit_self events threshold now r m =
    ground (arith, get-put_self m r.condition_id (misses m r.condition_id + 1))

-- What a visit makes of a record whose event the scan missed.
visit-missed :
    (events : List DiscoveredEvent) (threshold now : ℕ) (r : RegistryRecord) (m : Dict ℕ)
    → is_seen events r.condition_id ≡ false
    → (visit events threshold now r m).0 ≡ (
        if not (is_terminal r.status || r.has_open_position)
          && leb threshold (misses m r.condition_id + 1)
          && may_become r.status inactive
        then moved inactive now r
        else r)
unfolding visit is_skipped is_removed
visit-missed events threshold now r m h = ground arith

visit-cong :
    (events : List DiscoveredEvent) (threshold now : ℕ) (r : RegistryRecord) (m n : Dict ℕ)
    → misses m r.condition_id ≡ misses n r.condition_id
    → (visit events threshold now r m).0 ≡ (visit events threshold now r n).0
unfolding visit is_removed
visit-cong events threshold now r m n h = ground arith

-- The second loop visits each event with the miss count that it has at the start.
pub get-sweep :
    (events : List DiscoveredEvent) (threshold now : ℕ) (d : Records) (m : Dict ℕ) (cid : String)
    (r : RegistryRecord)
    → IsKeyed d
    → get d cid ≡ some r
    → get (sweep events threshold now d m).0 cid ≡ some (visit events threshold now r m).0
unfolding sweep get
get-sweep events threshold now [] m cid r keyed found = absurd (ground arith)
get-sweep events threshold now ((k, q) ∷ d) m cid r (one_more key fresh keyed) found =
    elim (Bool-cases (str_eq k cid)) [
      | inl same ↦ ground arith
      | inr other ↦
          let m' = (visit events threshold now q m).1 in
          let found' : get d cid ≡ some r = ground arith in
          let apart : q.condition_id ≢ r.condition_id =
            λ e. ground (arith, eq_iff k cid, keyed-get d cid r keyed found') in
          ground (
            arith,
            get-sweep events threshold now d m' cid r keyed found',
            visit-cong events threshold now r m' m
                (misses-visit events threshold now q m r.condition_id apart),
          )
    ]

misses-sweep-none :
    (events : List DiscoveredEvent) (threshold now : ℕ) (d : Records) (m : Dict ℕ) (cid : String)
    → IsKeyed d
    → get d cid ≡ none
    → misses (sweep events threshold now d m).1 cid ≡ misses m cid
unfolding sweep get
misses-sweep-none events threshold now [] m cid keyed h = refl
misses-sweep-none events threshold now ((k, q) ∷ d) m cid (one_more key fresh keyed) h =
    let apart : q.condition_id ≢ cid = λ e. ground (arith, eq_iff k cid) in
    ground (
      arith,
      misses-sweep-none events threshold now d (visit events threshold now q m).1 cid keyed
          (ground arith),
      misses-visit events threshold now q m cid apart,
    )

pub misses-sweep :
    (events : List DiscoveredEvent) (threshold now : ℕ) (d : Records) (m : Dict ℕ) (cid : String)
    (r : RegistryRecord)
    → IsKeyed d
    → get d cid ≡ some r
    → misses (sweep events threshold now d m).1 cid ≡ misses (visit events threshold now r m).1 cid
unfolding sweep get
misses-sweep events threshold now [] m cid r keyed found = absurd (ground arith)
misses-sweep events threshold now ((k, q) ∷ d) m cid r (one_more key fresh keyed) found =
    elim (Bool-cases (str_eq k cid)) [
      | inl same ↦ ground (
        arith,
        eq_iff k cid,
        misses-sweep-none events threshold now d (visit events threshold now q m).1 cid keyed,
      )
      | inr other ↦
          let m' = (visit events threshold now q m).1 in
          let found' : get d cid ≡ some r = ground arith in
          let apart : q.condition_id ≢ r.condition_id =
            λ e. ground (arith, eq_iff k cid, keyed-get d cid r keyed found') in
          misses-sweep events threshold now d m' cid r keyed found'
          ∙ subst
              (λ j.
                misses (visit events threshold now r m').1 j
                ≡ misses (visit events threshold now r m).1 j)
              (keyed-get d cid r keyed found')
              (ground (
                arith,
                misses-visit_self events threshold now r m,
                misses-visit_self events threshold now r m',
                misses-visit events threshold now q m r.condition_id apart,
              ))
    ]

-- A candidate of another event.
pub take_candidate-other :
    (ids : DiscoveredEvent → String) (now : ℕ) (e : DiscoveredEvent) (s : SyncState) (cid : String)
    → str_eq e.condition_id cid ≡ false
    → let s' = take_candidate ids now e s in
      (get s'.records cid ≡ get s.records cid)
      × (misses s'.miss_counts cid ≡ misses s.miss_counts cid)
unfolding take_candidate misses
take_candidate-other ids now e s cid h =
    let apart : e.condition_id ≢ cid = λ k. ground (arith, eq_iff e.condition_id cid) in
    elim (Option-cases (get s.records e.condition_id)) [
      | inl missing ↦
          rw (missing, take_candidate)
            (rw (register-new (ids e) now e s.records missing) (
              get-put_ne s.records e.condition_id cid (new_event (ids e) e) apart,
              ground (arith, get-remove s.miss_counts e.condition_id cid),
            ))
      | inr (r, found) ↦
          rw (found, take_candidate)
            (
              get-put_ne s.records e.condition_id cid (refound now r) apart,
              ground (arith, get-remove s.miss_counts e.condition_id cid),
            )
    ]

take_candidates-unseen :
    (ids : DiscoveredEvent → String) (now : ℕ) (events : List DiscoveredEvent) (s : SyncState)
    (cid : String)
    → is_seen events cid ≡ false
    → let s' = take_candidates ids now events s in
      (get s'.records cid ≡ get s.records cid)
      × (misses s'.miss_counts cid ≡ misses s.miss_counts cid)
unfolding take_candidates is_seen any
take_candidates-unseen ids now [] s cid h = (refl, refl)
take_candidates-unseen ids now (e ∷ es) s cid h =
    let first = take_candidate-other ids now e s cid (ground arith) in
    let rest = take_candidates-unseen ids now es (take_candidate ids now e s) cid (ground arith) in
    (rest.0 ∙ first.0, rest.1 ∙ first.1)

-- An event that a scan misses is as it was, except that one which is not done with and has no open
-- position has one more miss, and is made inactive where the misses reach the threshold and its
-- status allows it.
pub sync-missed :
    (threshold : ℕ) (ids : DiscoveredEvent → String) (now : ℕ) (events : List DiscoveredEvent)
    (s : SyncState) (cid : String) (r : RegistryRecord)
    → IsKeyed s.records
    → get s.records cid ≡ some r
    → is_seen events cid ≡ false
    → let s' = sync threshold ids now events s in
      let n = misses s.miss_counts cid in
      let untouched = is_terminal r.status || r.has_open_position in
      (get s'.records cid
        ≡ some (
            if not untouched && leb threshold (n + 1) && may_become r.status inactive
            then moved inactive now r
            else r))
      × (misses s'.miss_counts cid ≡ (if untouched then n else n + 1))
unfolding sync
sync-missed threshold ids now events s cid r keyed found h =
    let s₀ = record s { result = empty_result } in
    let s₁ = take_candidates ids now events s₀ in
    let unseen = take_candidates-unseen ids now events s₀ cid h in
    let keyed₁ = take_candidates-IsKeyed ids now events s₀ keyed in
    let found₁ : get s₁.records cid ≡ some r = unseen.0 ∙ found in
    let key = keyed-get s.records cid r keyed found in
    let skipped : is_skipped events r ≡ is_terminal r.status =
      unfold is_skipped in (ground arith) in
    (
      get-sweep events threshold now s₁.records s₁.miss_counts cid r keyed₁ found₁
          ∙ ground (arith, key, unseen.1, visit-missed events threshold now r s₁.miss_counts),
      misses-sweep events threshold now s₁.records s₁.miss_counts cid r keyed₁ found₁
          ∙ ground (
            arith,
            key,
            unseen.1,
            skipped,
            misses-visit_self events threshold now r s₁.miss_counts,
          ),
    )
