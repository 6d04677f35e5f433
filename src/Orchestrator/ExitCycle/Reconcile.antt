-- ===== src/Orchestrator/ExitCycle/Reconcile.antt =====
-- What the reconciliation makes of each claim.
use polyfast.Base.{
  ℕ, String, true, false, not, ◌&&◌, ◌≡◌, ◌≢◌, ◌⊎◌, inl, inr, none, some, List, [], ◌∷◌,
  if◌then◌else◌, refl, sym, ap, ◌∙◌, arith, Bool-cases, Option-cases, if-cases, eq_iff, str_eq,
  subst,
}
use mathlib.Core.Option.{map as map_option}
use polyfast.Base.Dict.{get, values, get-put, get-put_self, get-IsIn}
use polyfast.Base.Lists.{IsIn, in_head, in_tail, select, IsIn-select, select-IsIn}
use polyfast.Claims.Record.{ClaimRecord, is_pending, is_success}
use polyfast.Claims.Manager.{Claims, get_claim, settled_record, mark_externally_settled}
use polyfast.Claims.Manager.Once.{get-settle}
use polyfast.Float.{Float}
use polyfast.Settlement.Pass.{Settling}
use polyfast.Orchestrator.ExitCycle.{is_position_in_retry, reconcile_claims, reconcile_external}

module _ {N : Type 0} where
  -- Every claim stands under its identifier, once.
  pub record AreKeyed (s : Claims N) : Type 0 where
    pub own_key : (cid : String) (r : ClaimRecord N) → get s.claims cid ≡ some r → r.claim_id ≡ cid
    pub once : (r : ClaimRecord N) → IsIn r (values s.claims) → get s.claims r.claim_id ≡ some r

  -- The state after one claim.
  abbrev after_claim : ℕ → ClaimRecord N → Settling N → Settling N
  after_claim now c s =
      if is_position_in_retry s c.position_id
      then s
      else record s { claims = (mark_externally_settled c.claim_id now s.claims).1 }

  -- A claim that is pending and does not wait for a retry is closed; the others stay.
  unfoldable pub reconciled : ℕ → Settling N → ClaimRecord N → ClaimRecord N
  reconciled now s r =
      if is_pending r && not (is_position_in_retry s r.position_id) then settled_record now r else r

  after_claim-retries :
      (now : ℕ) (c : ClaimRecord N) (s : Settling N) → (after_claim now c s).retries ≡ s.retries
  after_claim-retries now c s =
      if-cases (λ t. t.retries ≡ s.retries) (is_position_in_retry s c.position_id) s _ (λ h. refl)
        (λ h. refl)

  in_retry-kept :
      (s s' : Settling N) (pid : String)
      → s'.retries ≡ s.retries
      → is_position_in_retry s' pid ≡ is_position_in_retry s pid
  unfolding is_position_in_retry
  in_retry-kept s s' pid e =
      ap (λ d. elim (get d pid) [ none ↦ false | some x ↦ not x.exhausted ]) e

  reconcile_claims-retries :
      (now : ℕ) (cs : List (ClaimRecord N)) (s : Settling N)
      → (reconcile_claims now cs s).1.retries ≡ s.retries
  unfolding reconcile_claims
  reconcile_claims-retries now [] s = refl
  reconcile_claims-retries now (c ∷ cs) s =
      reconcile_claims-retries now cs (after_claim now c s) ∙ after_claim-retries now c s

  -- Marking another claim changes nothing.
  mark_other :
      (k cid : String) (now : ℕ) (s : Claims N)
      → k ≢ cid
      → get (mark_externally_settled k now s).1.claims cid ≡ get s.claims cid
  unfolding mark_externally_settled
  mark_other k cid now s other = elim (Option-cases (get_claim s k)) [
    | inl missing ↦ rw (missing, mark_externally_settled) refl
    | inr (q, found) ↦
        rw (found, mark_externally_settled)
          (ground (arith, eq_iff k cid, get-put s.claims k cid (settled_record now q), other))
  ]

  -- Marking a claim that is pending closes it.
  mark_own :
      (cid : String) (now : ℕ) (s : Claims N) (r : ClaimRecord N)
      → get s.claims cid ≡ some r
      → is_pending r ≡ true
      → get (mark_externally_settled cid now s).1.claims cid ≡ some (settled_record now r)
  unfolding mark_externally_settled
  mark_own cid now s r found waits =
      rw (found, mark_externally_settled)
        (ground (arith, get-put_self s.claims cid (settled_record now r)))

  -- A claim of which every entry of the list waits for a retry is left alone.
  reconcile_claims-alone :
      (now : ℕ) (cid : String) (cs : List (ClaimRecord N)) (s : Settling N)
      → ((c : ClaimRecord N)
          → IsIn c cs
          → c.claim_id ≡ cid
          → is_position_in_retry s c.position_id ≡ true)
      → get (reconcile_claims now cs s).1.claims.claims cid ≡ get s.claims.claims cid
  unfolding reconcile_claims
  reconcile_claims-alone now cid [] s all = refl
  reconcile_claims-alone now cid (c ∷ cs) s all =
      let kept = after_claim-retries now c s in
      let first : get (after_claim now c s).claims.claims cid ≡ get s.claims.claims cid =
        if-cases (λ (t : Settling N). get t.claims.claims cid ≡ get s.claims.claims cid)
          (is_position_in_retry s c.position_id) _ _ (λ waits. refl)
          (λ free.
            mark_other c.claim_id cid now s.claims
              (λ e. ground (arith, all c (in_head refl) e, free))) in
      reconcile_claims-alone now cid cs (after_claim now c s)
        (λ q i e. in_retry-kept s (after_claim now c s) q.position_id kept ∙ all q (in_tail i) e)
      ∙ first

module _ {N : Type 0} ⦃f : Float N⦄ where
  -- A claim that has succeeded stays.
  reconcile_claims-success :
      (now : ℕ) (cid : String) (r : ClaimRecord N) (cs : List (ClaimRecord N)) (s : Settling N)
      → get s.claims.claims cid ≡ some r
      → is_success r ≡ true
      → get (reconcile_claims now cs s).1.claims.claims cid ≡ some r
  unfolding reconcile_claims
  reconcile_claims-success now cid r [] s found done = found
  reconcile_claims-success now cid r (c ∷ cs) s found done =
      reconcile_claims-success now cid r cs (after_claim now c s)
        (if-cases (λ (t : Settling N). get t.claims.claims cid ≡ some r)
          (is_position_in_retry s c.position_id) _ _ (λ waits. found)
          (λ free. get-settle c.claim_id now s.claims cid r found done))
        done

  -- A pending claim with an entry that does not wait for a retry is closed.
  reconcile_claims-closed :
      (now : ℕ) (c r : ClaimRecord N) (cs : List (ClaimRecord N)) (s : Settling N)
      → IsIn c cs
      → is_position_in_retry s c.position_id ≡ false
      → get s.claims.claims c.claim_id ≡ some r
      → is_pending r ≡ true
      → get (reconcile_claims now cs s).1.claims.claims c.claim_id ≡ some (settled_record now r)
  unfolding reconcile_claims settled_record
  reconcile_claims-closed now c r [] s i free found waits = elim i [ ]
  reconcile_claims-closed now c r (x ∷ cs) s (in_head same) free found waits =
      reconcile_claims-success now c.claim_id (settled_record now r) cs (after_claim now x s)
        (subst
          (λ (y : ClaimRecord N).
            get (after_claim now y s).claims.claims c.claim_id ≡ some (settled_record now r))
          same
          (if-cases
            (λ (t : Settling N). get t.claims.claims c.claim_id ≡ some (settled_record now r))
            (is_position_in_retry s c.position_id) _ _ (λ retried. absurd (ground arith))
            (λ go. mark_own c.claim_id now s.claims r found waits)))
        refl
  reconcile_claims-closed now c r (x ∷ cs) s (in_tail i) free found waits =
      let s₁ = after_claim now x s in
      let free₁ = in_retry-kept s s₁ c.position_id (after_claim-retries now x s) ∙ free in
      let step : (get s₁.claims.claims c.claim_id ≡ some r)
          ⊎ (get s₁.claims.claims c.claim_id ≡ some (settled_record now r)) =
        if-cases
          (λ (t : Settling N).
            (get t.claims.claims c.claim_id ≡ some r)
            ⊎ (get t.claims.claims c.claim_id ≡ some (settled_record now r)))
          (is_position_in_retry s x.position_id) _ _ (λ retried. inl found)
          (λ go. elim (Bool-cases (str_eq x.claim_id c.claim_id)) [
            | inl own ↦
                let e : x.claim_id ≡ c.claim_id = (eq_iff x.claim_id c.claim_id).0 own in
                inr (
                  subst
                    (λ k.
                      get (mark_externally_settled k now s.claims).1.claims c.claim_id
                      ≡ some (settled_record now r))
                    (sym e) (mark_own c.claim_id now s.claims r found waits))
            | inr other ↦ inl (
                mark_other x.claim_id c.claim_id now s.claims
                  (λ e. ground (arith, other, eq_iff x.claim_id c.claim_id))
                ∙ found)
          ]) in
      elim step [
        | inl open_ ↦ reconcile_claims-closed now c r cs s₁ i free₁ open_ waits
        | inr closed_ ↦
            reconcile_claims-success now c.claim_id (settled_record now r) cs s₁ closed_ refl
      ]

  -- The entries of the list are pending claims of the dict.
  listed_once :
      (s : Claims N) (cid : String) (c : ClaimRecord N)
      → AreKeyed s
      → IsIn c (select is_pending (values s.claims))
      → c.claim_id ≡ cid
      → (get s.claims cid ≡ some c) × (is_pending c ≡ true)
  listed_once s cid c keyed i e =
      let (j, open_) = select-IsIn is_pending c (values s.claims) i in
      (subst (λ k. get s.claims k ≡ some c) e (keyed.once c j), open_)

  -- The reconciliation with the exchange closes exactly the pending claims whose position does not
  -- wait for a retry. Every other claim, the ones that wait for a retry among them, stays as it is,
  -- no claim is made or lost, and the retries stay.
  pub get-reconcile_external :
      (now : ℕ) (s : Settling N) (cid : String)
      → AreKeyed s.claims
      → let s' = (reconcile_external now s).1 in
        (get s'.claims.claims cid ≡ map_option (reconciled now s) (get s.claims.claims cid))
        × (s'.retries ≡ s.retries)
  unfolding reconcile_external reconciled
  get-reconcile_external now s cid keyed =
      let cs = select is_pending (values s.claims.claims) in
      let kept = reconcile_claims-retries now cs s in
      elim (Option-cases (get s.claims.claims cid)) [
        | inl missing ↦ (
          reconcile_claims-alone now cid cs s (λ c i e.
                absurd (ground (arith, (listed_once s.claims cid c keyed i e).0, missing)))
              ∙ missing
              ∙ sym (ap (map_option (reconciled now s)) missing),
          kept,
        )
        | inr (r, found) ↦
            let own = keyed.own_key cid r found in
            let due = is_pending r && not (is_position_in_retry s r.position_id) in
            (
              elim (Bool-cases due) [
                | inl go ↦
                    let changed : reconciled now s r ≡ settled_record now r = ground arith in
                    subst
                      (λ k.
                        get (reconcile_claims now cs s).1.claims.claims k
                        ≡ some (settled_record now r))
                      own
                      (reconcile_claims-closed now r r cs s
                        (IsIn-select is_pending r (values s.claims.claims)
                          (get-IsIn s.claims.claims cid r found) (ground arith))
                        (ground arith) (subst (λ k. get s.claims.claims k ≡ some r) (sym own) found)
                        (ground arith))
                    ∙ ap some (sym changed)
                    ∙ sym (ap (map_option (reconciled now s)) found)
                | inr stay ↦
                    let same : reconciled now s r ≡ r = ground arith in
                    reconcile_claims-alone now cid cs s (λ c i e.
                      let (there, open_) = listed_once s.claims cid c keyed i e in
                      ground (arith, there, found, open_, stay))
                    ∙ found
                    ∙ ap some (sym same)
                    ∙ sym (ap (map_option (reconciled now s)) found)
              ],
              kept,
            )
      ]
