-- ===== src/Claims/Tests.antt =====
-- Runs of the claim manager.
use polyfast.Base.{◌+◌, ◌≡◌, true, false, none, some, [], ◌∷◌, refl}
use polyfast.Base.Int.{ℤ, pos}
use polyfast.Base.Dict.{get}
use polyfast.Float.{◌⊕◌}
use polyfast.Float.Fixed.{fixed}
use polyfast.Claims.Record.{ClaimRecord, success, redeemed_won, new_claim}
use polyfast.Claims.Manager.{
  Claims, get_claim, execute_redeem, redeem_record, restore_claim, mark_externally_settled,
}
use polyfast.Claims.Manager.Once.{
  claim_here, claim_next, redeem, restore, settle_outside, ClaimReach-keeps, execute_redeem-once,
}

abbrev claim : ClaimRecord ℤ
claim = new_claim "k1" 300 "c1" "p1" "BTC" "UP"

abbrev paid_claim : ClaimRecord ℤ
paid_claim = record claim {
  claim_status = success;
  outcome = redeemed_won;
  claimed_amount_usdc = pos 990;
}

abbrev claims_of : ClaimRecord ℤ → Claims ℤ
claims_of r = record {
  claims = ("k1", r) ∷ [];
  balance = record {
    available = pos 1500;
    total = pos 2000;
    updated_at = some 100;
    stale_threshold = 90;
    fetch_count = 1;
  };
  claim_count = 0;
  paper_mode = true;
  store_set = true;
  scheduled = [];
}

get-claim : get_claim (claims_of claim) "k1" ≡ some claim
unfolding get new_claim
get-claim = refl

get-paid_claim : get_claim (claims_of paid_claim) "k1" ≡ some paid_claim
unfolding get new_claim
get-paid_claim = refl

execute_redeem-once_example :
    let (done, s') = execute_redeem "k1" true (pos 990) 310 (claims_of claim) in
    (done ≡ true)
    × (execute_redeem "k1" true (pos 990) 320 s' ≡ (true, s'))
    × (s'.balance.available ≡ pos 1500 ⊕ pos 990)
    × (s'.claim_count ≡ 0 + 1)
execute_redeem-once_example =
    execute_redeem-once "k1" true (pos 990) 310 320 (claims_of claim) claim get-claim
      (unfold new_claim in refl) refl

-- A redeem again, a claim of another position that is restored, and a settlement outside.
abbrev redeemed_again : Claims ℤ
redeemed_again = (execute_redeem "k1" false (pos 0) 320 (claims_of paid_claim)).1

abbrev other_claim : ClaimRecord ℤ
other_claim = record claim { claim_id = "k2"; position_id = "p2" }

no_other : get_claim redeemed_again "k2" ≡ none
unfolding get execute_redeem redeem_record
no_other = refl

ClaimReach-keeps_example :
    get_claim (mark_externally_settled "k1" 330 (restore_claim other_claim redeemed_again)).1 "k1"
    ≡ some paid_claim
ClaimReach-keeps_example =
    ClaimReach-keeps
      (claim_next
        (claim_next (claim_next claim_here (redeem "k1" false (pos 0) 320 refl))
          (restore other_claim no_other refl))
        (settle_outside "k1" 330 refl))
      "k1" paid_claim get-paid_claim refl
