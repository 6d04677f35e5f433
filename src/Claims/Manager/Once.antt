-- ===== src/Claims/Manager/Once.antt =====
-- Sequences of the calls of `ClaimManager`, and repeated redeems.
use polyfast.Base.{
  ℕ, ◌+◌, String, Bool, true, false, ◌≡◌, none, some, refl, arith, eq_iff, if◌then◌else◌, inl, inr,
  Option-cases,
}
use polyfast.Base.Dict.{get-put, get-put_self}
use polyfast.Float.{Float, ◌⊕◌}
use polyfast.Balance.{add_amount}
use polyfast.Claims.Record.{ClaimRecord, is_success, new_claim}
use polyfast.Claims.Manager.{
  Claims, get_claim, create_claim, execute_redeem, redeem_record, redeem_paper, redeemed_record,
  failed_record, mark_externally_settled, settled_record, restore_claim,
}

module _ {N : Type 0} ⦃f : Float N⦄ where
  -- The calls that change the claims: of the settlement, of the restore at the start, and of the
  -- reconciliation with the exchange. A claim is made or restored under an identifier that is not in
  -- memory.
  pub data ClaimStep (s t : Claims N) : Type 0 where
    create :
        (claim_id : String) (now : ℕ) (condition_id position_id asset side : String)
        → get_claim s claim_id ≡ none
        → t ≡ (create_claim claim_id now condition_id position_id asset side s).1
        → ClaimStep s t
    redeem :
        (cid : String) (won : Bool) (payout : N) (now : ℕ)
        → t ≡ (execute_redeem cid won payout now s).1
        → ClaimStep s t
    settle_outside :
        (cid : String) (now : ℕ) → t ≡ (mark_externally_settled cid now s).1 → ClaimStep s t
    restore :
        (r : ClaimRecord N) → get_claim s r.claim_id ≡ none → t ≡ restore_claim r s → ClaimStep s t

  pub data ClaimReach (s : Claims N) : Claims N → Type 0 where
    claim_here : ClaimReach s s
    claim_next : {t u : Claims N} → ClaimReach s t → ClaimStep t u → ClaimReach s u

  get-create_claim :
      (claim_id : String) (now : ℕ) (condition_id position_id asset side : String) (s : Claims N)
      (cid : String) (r : ClaimRecord N)
      → get_claim s claim_id ≡ none
      → get_claim s cid ≡ some r
      → get_claim (create_claim claim_id now condition_id position_id asset side s).1 cid ≡ some r
  unfolding create_claim
  get-create_claim claim_id now condition_id position_id asset side s cid r fresh found =
      let made : ClaimRecord N = new_claim claim_id now condition_id position_id asset side in
      ground (arith, get-put s.claims claim_id cid made, eq_iff claim_id cid)

  get-restore_claim :
      (q : ClaimRecord N) (s : Claims N) (cid : String) (r : ClaimRecord N)
      → get_claim s q.claim_id ≡ none
      → get_claim s cid ≡ some r
      → get_claim (restore_claim q s) cid ≡ some r
  unfolding restore_claim
  get-restore_claim q s cid r fresh found =
      ground (arith, get-put s.claims q.claim_id cid q, eq_iff q.claim_id cid)

  get-execute_redeem :
      (k : String) (won : Bool) (payout : N) (now : ℕ) (s : Claims N) (cid : String)
      (r : ClaimRecord N)
      → get_claim s cid ≡ some r
      → is_success r ≡ true
      → get_claim (execute_redeem k won payout now s).1 cid ≡ some r
  unfolding execute_redeem redeem_record redeem_paper
  get-execute_redeem k won payout now s cid r found done = elim (Option-cases (get_claim s k)) [
    | inl missing ↦ rw (missing, execute_redeem) found
    | inr (q, here) ↦
        rw (here, execute_redeem)
          (ground (
            arith,
            eq_iff k cid,
            get-put s.claims k cid (redeemed_record won payout now q),
            get-put s.claims k cid (failed_record q),
          ))
  ]

  pub get-settle :
      (k : String) (now : ℕ) (s : Claims N) (cid : String) (r : ClaimRecord N)
      → get_claim s cid ≡ some r
      → is_success r ≡ true
      → get_claim (mark_externally_settled k now s).1 cid ≡ some r
  unfolding mark_externally_settled
  get-settle k now s cid r found done = elim (Option-cases (get_claim s k)) [
    | inl missing ↦ rw (missing, mark_externally_settled) found
    | inr (q, here) ↦
        rw (here, mark_externally_settled)
          (ground (arith, eq_iff k cid, get-put s.claims k cid (settled_record now q)))
  ]

  -- A claim that has succeeded stays as it is, its outcome and its amount among the rest, through
  -- every sequence of later calls of `create_claim`, `execute_redeem`, `mark_externally_settled` and
  -- `restore_claim`, where claims are made and restored under identifiers that are not in memory.
  pub ClaimReach-keeps :
      {s t : Claims N}
      → ClaimReach s t
      → (cid : String) (r : ClaimRecord N) → get_claim s cid ≡ some r
      → is_success r ≡ true
      → get_claim t cid ≡ some r
  ClaimReach-keeps claim_here cid r found done = found
  ClaimReach-keeps (claim_next {t} run (create claim_id now cond pos asset side fresh e)) cid r
        found done =
      rw e (
        get-create_claim claim_id now cond pos asset side t cid r fresh
          (ClaimReach-keeps run cid r found done))
  ClaimReach-keeps (claim_next {t} run (redeem k won payout now e)) cid r found done =
      rw e
        (get-execute_redeem k won payout now t cid r (ClaimReach-keeps run cid r found done) done)
  ClaimReach-keeps (claim_next {t} run (restore q fresh e)) cid r found done =
      rw e (get-restore_claim q t cid r fresh (ClaimReach-keeps run cid r found done))
  ClaimReach-keeps (claim_next {t} run (settle_outside k now e)) cid r found done =
      rw e (get-settle k now t cid r (ClaimReach-keeps run cid r found done) done)

  pub execute_redeem-paper :
      (cid : String) (won : Bool) (payout : N) (now : ℕ) (s : Claims N) (r : ClaimRecord N)
      → get_claim s cid ≡ some r
      → is_success r ≡ false
      → s.paper_mode ≡ true
      → execute_redeem cid won payout now s ≡ (true, redeem_paper cid won payout now r s)
  unfolding execute_redeem redeem_record
  execute_redeem-paper cid won payout now s r found fresh paper =
      rw (found, execute_redeem) (ground arith)

  execute_redeem-done :
      (cid : String) (won : Bool) (payout : N) (now : ℕ) (s : Claims N) (r : ClaimRecord N)
      → get_claim s cid ≡ some r
      → is_success r ≡ true
      → execute_redeem cid won payout now s ≡ (true, s)
  unfolding execute_redeem redeem_record
  execute_redeem-done cid won payout now s r found done = rw (found, execute_redeem) (ground arith)

  pub get-redeem_paper :
      (cid : String) (won : Bool) (payout : N) (now : ℕ) (r : ClaimRecord N) (s : Claims N)
      → get_claim (redeem_paper cid won payout now r s) cid
        ≡ some (redeemed_record won payout now r)
  unfolding redeem_paper
  get-redeem_paper cid won payout now r s = get-put_self s.claims cid _

  -- In paper mode the redeem of a claim that has not succeeded succeeds, and the same call again
  -- changes nothing: a win adds the payout to the balance once, a loss adds nothing.
  pub execute_redeem-once :
      (cid : String) (won : Bool) (payout : N) (now later : ℕ) (s : Claims N) (r : ClaimRecord N)
      → get_claim s cid ≡ some r
      → is_success r ≡ false
      → s.paper_mode ≡ true
      → let (done, s') = execute_redeem cid won payout now s in
        (done ≡ true)
        × (execute_redeem cid won payout later s' ≡ (true, s'))
        × (s'.balance.available
            ≡ (if won then s.balance.available ⊕ payout else s.balance.available))
        × (s'.claim_count ≡ s.claim_count + 1)
  execute_redeem-once cid won payout now later s r found fresh paper =
      let paid = redeem_paper cid won payout now r s in
      rw (execute_redeem-paper cid won payout now s r found fresh paper) (
        refl,
        execute_redeem-done cid won payout later paid (redeemed_record won payout now r)
            (get-redeem_paper cid won payout now r s) (unfold redeemed_record in refl),
        unfold redeem_paper add_amount in ground arith,
        unfold redeem_paper in refl,
      )
