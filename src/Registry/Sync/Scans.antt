-- ===== src/Registry/Sync/Scans.antt =====
-- What scans do to an event that they find, and what many scans in a row do.
use polyfast.Base.{
  ℕ, ◌+◌, ◌<◌, String, Bool, true, false, not, ◌≡◌, some, List, [], ◌∷◌, arith, refl, if◌then◌else◌,
  eq_iff, eq_refl, str_eq, leb, ◌&&◌, inl, inr, Bool-cases, sym, ◌∙◌, subst,
}
use polyfast.Base.Dict.{get, get-put_self, get-remove}
use polyfast.Base.Lists.{any, length}
use polyfast.Registry.Status.{
  EventStatus, active, inactive, RegistryRecord, moved, may_become, is_inactive, update_last_seen,
}
use polyfast.Registry.Service.{DiscoveredEvent}
use polyfast.Registry.Sync.Keyed.{IsKeyed, keyed-get, take_candidates-IsKeyed, sync-IsKeyed}
use polyfast.Registry.Sync.Missing.{
  take_candidate-other, get-sweep, misses-sweep, misses-visit_self, sync-missed,
}
use polyfast.Registry.Sync.{
  SyncState, misses, is_seen, refound, take_candidate, take_candidates, is_skipped, visit, sync,
  empty_result,
}

refound-twice : (now : ℕ) (r : RegistryRecord) → refound now (refound now r) ≡ refound now r
unfolding refound may_become
refound-twice now r = ground arith

take_candidate-same :
    (ids : DiscoveredEvent → String) (now : ℕ) (e : DiscoveredEvent) (s : SyncState) (cid : String)
    (r : RegistryRecord)
    → e.condition_id ≡ cid
    → get s.records cid ≡ some r
    → let s' = take_candidate ids now e s in
      (get s'.records cid ≡ some (refound now r)) × (misses s'.miss_counts cid ≡ 0)
unfolding take_candidate misses
take_candidate-same ids now e s cid r key found =
    let found' : get s.records e.condition_id ≡ some r =
      subst (λ k. get s.records k ≡ some r) (sym key) found in
    rw (found', take_candidate)
      (
        ground (arith, key, get-put_self s.records e.condition_id (refound now r)),
        ground (arith, key, get-remove s.miss_counts e.condition_id cid, eq_refl cid),
      )

take_candidates-found :
    (ids : DiscoveredEvent → String) (now : ℕ) (events : List DiscoveredEvent) (s : SyncState)
    (cid : String) (r : RegistryRecord)
    → get s.records cid ≡ some r
    → let s' = take_candidates ids now events s in
      (get s'.records cid ≡ some (if is_seen events cid then refound now r else r))
      × (misses s'.miss_counts cid ≡ (if is_seen events cid then 0 else misses s.miss_counts cid))
unfolding take_candidates is_seen any
take_candidates-found ids now [] s cid r found = (found, refl)
take_candidates-found ids now (e ∷ es) s cid r found =
    elim (Bool-cases (str_eq e.condition_id cid)) [
      | inl same ↦
          let first =
            take_candidate-same ids now e s cid r ((eq_iff e.condition_id cid).0 same) found in
          let rest =
            take_candidates-found ids now es (take_candidate ids now e s) cid (refound now r)
              first.0 in
          (ground (arith, rest.0, refound-twice now r), ground (arith, rest.1, first.1))
      | inr other ↦
          let first = take_candidate-other ids now e s cid other in
          let rest =
            take_candidates-found ids now es (take_candidate ids now e s) cid r (first.0 ∙ found) in
          (ground (arith, rest.0), ground (arith, rest.1, first.1))
    ]

-- An event that a scan finds has no misses any more, and is seen now; an inactive one is active
-- again, and any other keeps its status.
pub sync-found :
    (threshold : ℕ) (ids : DiscoveredEvent → String) (now : ℕ) (events : List DiscoveredEvent)
    (s : SyncState) (cid : String) (r : RegistryRecord)
    → IsKeyed s.records
    → get s.records cid ≡ some r
    → is_seen events cid ≡ true
    → let s' = sync threshold ids now events s in
      (get s'.records cid
        ≡ some (
            if is_inactive r.status
            then moved active now (update_last_seen now r)
            else update_last_seen now r))
      × (misses s'.miss_counts cid ≡ 0)
unfolding sync
sync-found threshold ids now events s cid r keyed found h =
    let s₀ = record s { result = empty_result } in
    let s₁ = take_candidates ids now events s₀ in
    let after = take_candidates-found ids now events s₀ cid r found in
    let keyed₁ = take_candidates-IsKeyed ids now events s₀ keyed in
    let r₁ = refound now r in
    let found₁ : get s₁.records cid ≡ some r₁ = ground (arith, after.0) in
    let key = keyed-get s₁.records cid r₁ keyed₁ found₁ in
    let skipped : is_skipped events r₁ ≡ true = unfold is_skipped in (ground (arith, key)) in
    (
      get-sweep events threshold now s₁.records s₁.miss_counts cid r₁ keyed₁ found₁
          ∙ unfold visit refound may_become in ground (arith, skipped),
      misses-sweep events threshold now s₁.records s₁.miss_counts cid r₁ keyed₁ found₁
          ∙ ground (
            arith,
            key,
            after.1,
            skipped,
            misses-visit_self events threshold now r₁ s₁.miss_counts,
          ),
    )

-- A scan: its time, and what it found.
abbrev pub Scan : Type 0
Scan = ℕ × List DiscoveredEvent

unfoldable pub sync_scans : ℕ → (DiscoveredEvent → String) → List Scan → SyncState → SyncState
sync_scans threshold ids [] s = s
sync_scans threshold ids (scan ∷ scans) s =
    sync_scans threshold ids scans (sync threshold ids scan.0 scan.1 s)

-- No scan found the event.
unfoldable pub all_miss : String → List Scan → Bool
all_miss cid [] = true
all_miss cid (scan ∷ scans) = not (is_seen scan.1 cid) && all_miss cid scans

-- The event's status, where it is in the registry.
unfoldable pub StatusIs : SyncState → String → EventStatus → Type 0
StatusIs s cid status = (r : RegistryRecord) × (get s.records cid ≡ some r) × (r.status ≡ status)

inactive-stays :
    (threshold : ℕ) (ids : DiscoveredEvent → String) (scans : List Scan) (s : SyncState)
    (cid : String) (r : RegistryRecord)
    → IsKeyed s.records
    → get s.records cid ≡ some r
    → r.status ≡ inactive
    → all_miss cid scans ≡ true
    → StatusIs (sync_scans threshold ids scans s) cid inactive
unfolding sync_scans all_miss StatusIs
inactive-stays threshold ids [] s cid r keyed found off h = (r, found, off)
inactive-stays threshold ids (scan ∷ scans) s cid r keyed found off h =
    let missed = sync-missed threshold ids scan.0 scan.1 s cid r keyed found (ground arith) in
    let blocked : may_become r.status inactive ≡ false = unfold may_become in (ground arith) in
    inactive-stays threshold ids scans (sync threshold ids scan.0 scan.1 s) cid r
      (sync-IsKeyed threshold ids scan.0 scan.1 s keyed) (ground (arith, missed.0, blocked)) off
      (ground arith)

-- Soft removal: an active event without an open position that n scans in a row miss is inactive
-- exactly from the scan at which its misses reach the threshold; until then it is active.
pub sync_scans-status :
    (threshold : ℕ) (ids : DiscoveredEvent → String) (scans : List Scan) (s : SyncState)
    (cid : String) (r : RegistryRecord)
    → IsKeyed s.records
    → get s.records cid ≡ some r
    → r.status ≡ active
    → r.has_open_position ≡ false
    → misses s.miss_counts cid < threshold
    → all_miss cid scans ≡ true
    → StatusIs
        (sync_scans threshold ids scans s)
        cid
        (if leb threshold (misses s.miss_counts cid + length scans) then inactive else active)
unfolding sync_scans all_miss StatusIs
sync_scans-status threshold ids [] s cid r keyed found on free below h = (r, found, ground arith)
sync_scans-status threshold ids (scan ∷ scans) s cid r keyed found on free below h =
    let s' = sync threshold ids scan.0 scan.1 s in
    let keyed' = sync-IsKeyed threshold ids scan.0 scan.1 s keyed in
    let missed = sync-missed threshold ids scan.0 scan.1 s cid r keyed found (ground arith) in
    let open_way : may_become r.status inactive ≡ true = unfold may_become in (ground arith) in
    elim (Bool-cases (leb threshold (misses s.miss_counts cid + 1))) [
      | inl reached ↦
          subst (λ status. StatusIs (sync_scans threshold ids scans s') cid status) (ground arith)
            (inactive-stays threshold ids scans s' cid (moved inactive scan.0 r) keyed'
              (ground (arith, missed.0, open_way)) refl (ground arith))
      | inr under ↦
          subst (λ status. StatusIs (sync_scans threshold ids scans s') cid status)
            (ground (arith, missed.1))
            (sync_scans-status threshold ids scans s' cid r keyed' (ground (arith, missed.0)) on
              free (ground (arith, missed.1)) (ground arith))
    ]
