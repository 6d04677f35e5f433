-- ===== src/Orchestrator/Evaluation/Found.antt =====
-- What the searches of the registry and of the routes find.
use polyfast.Base.{
  ℕ, String, true, false, ◌&&◌, ◌≡◌, inl, inr, refl, List, [], ◌∷◌, str_eq, eq_iff, eq_refl, arith,
  Bool-cases,
}
use polyfast.Base.Dict.{Dict}
use polyfast.Base.Lists.{IsIn, in_head, in_tail}
use polyfast.Registry.Status.{RegistryRecord}
use polyfast.Market.Bridge.{TokenRoute}
use polyfast.Orchestrator.Slots.{is_live}
use polyfast.Orchestrator.Evaluation.Lookup.{find_current, find_token}

-- The registry has a live event of the asset with this condition.
abbrev pub HasLive : (String → String) → String → ℕ → String → List RegistryRecord → Type 0
HasLive upper asset unix cid rs =
    (r : RegistryRecord) × IsIn r rs
    × (r.condition_id ≡ cid)
    × (upper r.asset ≡ upper asset)
    × (is_live unix r.slug ≡ true)

-- The token has a route to this side of the event.
abbrev pub HasRoute :
    (String → String) → String → String → String → String → Dict TokenRoute → Type 0
HasRoute upper asset side cid tid d =
    (r : TokenRoute) × IsIn (tid, r) d
    × (r.condition_id ≡ cid)
    × (upper r.asset ≡ upper asset)
    × (upper r.side ≡ side)

module _ (upper : String → String) (asset : String) where
  pub find_current-HasLive :
      (unix : ℕ) (rs : List RegistryRecord)
      → str_eq (find_current upper asset unix rs) "" ≡ false
      → HasLive upper asset unix (find_current upper asset unix rs) rs
  unfolding find_current
  find_current-HasLive unix [] h = absurd (ground (arith, eq_refl ""))
  find_current-HasLive unix (r ∷ rs) h =
      elim (Bool-cases (str_eq (upper r.asset) (upper asset) && is_live unix r.slug)) [
        | inl here ↦ rw here (
          r,
          in_head refl,
          refl,
          ground (arith, eq_iff (upper r.asset) (upper asset)),
          ground arith,
        )
        | inr not_here ↦
            let (x, i, c, a, l) = find_current-HasLive unix rs (ground arith) in
            rw not_here (x, in_tail i, c, a, l)
      ]

  pub find_token-HasRoute :
      (side cid : String) (d : Dict TokenRoute)
      → str_eq (find_token upper asset side cid d) "" ≡ false
      → HasRoute upper asset side cid (find_token upper asset side cid d) d
  unfolding find_token
  find_token-HasRoute side cid [] h = absurd (ground (arith, eq_refl ""))
  find_token-HasRoute side cid ((tid, r) ∷ d) h =
      elim (Bool-cases (
        str_eq (upper r.asset) (upper asset)
        && str_eq (upper r.side) side
        && str_eq r.condition_id cid)) [
          | inl here ↦ rw here (
            r,
            in_head refl,
            ground (arith, eq_iff r.condition_id cid),
            ground (arith, eq_iff (upper r.asset) (upper asset)),
            ground (arith, eq_iff (upper r.side) side),
          )
          | inr not_here ↦
              let (x, i, c, a, s) = find_token-HasRoute side cid d (ground arith) in
              rw not_here (x, in_tail i, c, a, s)
        ]
