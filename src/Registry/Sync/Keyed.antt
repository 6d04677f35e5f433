-- ===== src/Registry/Sync/Keyed.antt =====
-- The keys of the registry's records under `SafeSync.sync`.
use polyfast.Base.{
  ℕ, String, ◌≡◌, none, some, List, [], ◌∷◌, arith, refl, eq_iff, str_eq, Bool-cases, inl, inr,
  Option-cases,
}
use polyfast.Base.Dict.{Dict, get, put, get-put}
use polyfast.Registry.Status.{RegistryRecord}
use polyfast.Registry.Service.{Records, DiscoveredEvent, register_candidate, new_event}
use polyfast.Registry.Sync.{
  SyncState, refound, take_candidate, take_candidates, visit, sweep, sync, empty_result,
}

-- Every record stands under its condition_id, once.
pub data IsKeyed : Records → Type 0 where
  no_records : IsKeyed []
  one_more :
      {cid : String} {r : RegistryRecord} {d : Records}
      → r.condition_id ≡ cid
      → get d cid ≡ none
      → IsKeyed d
      → IsKeyed ((cid, r) ∷ d)

pub keyed-get :
    (d : Records) (cid : String) (r : RegistryRecord)
    → IsKeyed d
    → get d cid ≡ some r
    → r.condition_id ≡ cid
unfolding get
keyed-get [] cid r keyed found = absurd (ground arith)
keyed-get ((k, q) ∷ d) cid r (one_more key fresh keyed) found = elim (Bool-cases (str_eq k cid)) [
  | inl same ↦ ground (arith, eq_iff k cid)
  | inr other ↦ keyed-get d cid r keyed (ground arith)
]

pub put-IsKeyed :
    (d : Records) (cid : String) (r : RegistryRecord)
    → r.condition_id ≡ cid
    → IsKeyed d
    → IsKeyed (put d cid r)
unfolding put get
put-IsKeyed [] cid r key keyed = one_more key (unfold get in refl) no_records
put-IsKeyed ((k, q) ∷ d) cid r key (one_more old fresh keyed) = elim (Bool-cases (str_eq k cid)) [
  | inl same ↦ rw same (one_more (ground (arith, eq_iff k cid)) fresh keyed)
  | inr other ↦ rw other (
      one_more old (ground (arith, get-put d cid k r, eq_iff cid k, eq_iff k cid))
        (put-IsKeyed d cid r key keyed))
]

refound-condition_id :
    (now : ℕ) (r : RegistryRecord) → (refound now r).condition_id ≡ r.condition_id
unfolding refound
refound-condition_id now r = ground arith

pub register-new :
    (event_id : String) (now : ℕ) (e : DiscoveredEvent) (d : Records)
    → get d e.condition_id ≡ none
    → register_candidate event_id now e d ≡ put d e.condition_id (new_event event_id e)
unfolding register_candidate
register-new event_id now e d missing = rw (missing, register_candidate) refl

take_candidate-IsKeyed :
    (ids : DiscoveredEvent → String) (now : ℕ) (e : DiscoveredEvent) (s : SyncState)
    → IsKeyed s.records
    → IsKeyed (take_candidate ids now e s).records
unfolding take_candidate new_event
take_candidate-IsKeyed ids now e s keyed = elim (Option-cases (get s.records e.condition_id)) [
  | inl missing ↦
      rw (missing, take_candidate)
        (rw (register-new (ids e) now e s.records missing)
          (put-IsKeyed s.records e.condition_id (new_event (ids e) e) refl keyed))
  | inr (r, found) ↦
      rw (found, take_candidate)
        (put-IsKeyed s.records e.condition_id (refound now r)
          (ground
            (arith, refound-condition_id now r, keyed-get s.records e.condition_id r keyed found))
          keyed)
]

pub take_candidates-IsKeyed :
    (ids : DiscoveredEvent → String) (now : ℕ) (events : List DiscoveredEvent) (s : SyncState)
    → IsKeyed s.records
    → IsKeyed (take_candidates ids now events s).records
unfolding take_candidates
take_candidates-IsKeyed ids now [] s keyed = keyed
take_candidates-IsKeyed ids now (e ∷ es) s keyed =
    take_candidates-IsKeyed ids now es (take_candidate ids now e s)
      (take_candidate-IsKeyed ids now e s keyed)

visit-condition_id :
    (events : List DiscoveredEvent) (threshold now : ℕ) (r : RegistryRecord) (m : Dict ℕ)
    → (visit events threshold now r m).0.condition_id ≡ r.condition_id
unfolding visit
visit-condition_id events threshold now r m = ground arith

get-sweep-none :
    (events : List DiscoveredEvent) (threshold now : ℕ) (d : Records) (m : Dict ℕ) (cid : String)
    → get d cid ≡ none
    → get (sweep events threshold now d m).0 cid ≡ none
unfolding sweep get
get-sweep-none events threshold now [] m cid h = refl
get-sweep-none events threshold now ((k, q) ∷ d) m cid h = ground (
  arith,
  get-sweep-none events threshold now d (visit events threshold now q m).1 cid (ground arith),
)

pub sweep-IsKeyed :
    (events : List DiscoveredEvent) (threshold now : ℕ) (d : Records) (m : Dict ℕ)
    → IsKeyed d
    → IsKeyed (sweep events threshold now d m).0
unfolding sweep
sweep-IsKeyed events threshold now [] m keyed = no_records
sweep-IsKeyed events threshold now ((k, q) ∷ d) m (one_more key fresh keyed) =
    let m' = (visit events threshold now q m).1 in
    one_more (ground (arith, visit-condition_id events threshold now q m))
      (get-sweep-none events threshold now d m' k fresh)
      (sweep-IsKeyed events threshold now d m' keyed)

pub sync-IsKeyed :
    (threshold : ℕ) (ids : DiscoveredEvent → String) (now : ℕ) (events : List DiscoveredEvent)
    (s : SyncState)
    → IsKeyed s.records
    → IsKeyed (sync threshold ids now events s).records
unfolding sync
sync-IsKeyed threshold ids now events s keyed =
    let s₁ = take_candidates ids now events (record s { result = empty_result }) in
    sweep-IsKeyed events threshold now s₁.records s₁.miss_counts
      (take_candidates-IsKeyed ids now events (record s { result = empty_result }) keyed)
