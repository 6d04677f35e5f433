-- ===== src/Registry/Service/Expiry.antt =====
-- Which events expire.
use polyfast.Base.{
  ℕ, ◌≤◌, String, true, ◌≡◌, ◌↔◌, ◌⊎◌, none, some, [], ◌∷◌, arith, refl, if◌then◌else◌,
}
use polyfast.Base.Dict.{get}
use polyfast.Registry.Status.{active, inactive, expired, RegistryRecord, moved, may_become}
use polyfast.Registry.Service.{Records, expires, expire_events}

-- A record expires exactly where its end has come and it is active or inactive: one that is still
-- discovered or validating, or is suspended, stays as it is.
pub expires_iff :
    (now : ℕ) (r : RegistryRecord)
    → (expires now r ≡ true) ↔ ((r.end_date ≤ now) × ((r.status ≡ active) ⊎ (r.status ≡ inactive)))
unfolding expires may_become
expires_iff now r = (λ h. ground arith, λ h. ground arith)

-- After the pass, the record of every event is the one from before, moved to expired exactly where
-- it expires.
pub get-expire_events :
    (now : ℕ) (cid : String) (d : Records)
    → get (expire_events now d).1 cid ≡ elim (get d cid) [
      | none ↦ none
      | some r ↦ some (if expires now r then moved expired now r else r)
    ]
unfolding expire_events get
get-expire_events now cid [] = refl
get-expire_events now cid ((k, r) ∷ d) = ground (arith, get-expire_events now cid d)
