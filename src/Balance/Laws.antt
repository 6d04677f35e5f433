-- ===== src/Balance/Laws.antt =====
-- The sign and the age of the balance of `BalanceManager`.
use polyfast.Base.{ℕ, ◌+◌, ◌≤◌, true, false, ◌≡◌, ◌↔◌, ◌⊎◌, refl, arith, Bool-cases, inl, inr}
use polyfast.Float.{Float, FloatLaws, ◌⊖◌, ◌<?◌, ◌≤?◌}
use polyfast.Balance.{
  Balance, FetchReply, no_function, raised, nothing, balances, half_read, amount, other_value,
  is_stale, fetch, deduct, add_amount,
}

module _ {N : Type 0} ⦃f : Float N⦄ ⦃laws : FloatLaws N⦄ where
  abbrev pub IsSolvent : Balance N → Type 0
  IsSolvent b = (f.zero_f ≤? b.available) ≡ true

  pub deduct-IsSolvent : (x : N) (now : ℕ) (b : Balance N) → IsSolvent (deduct x now b)
  unfolding deduct
  deduct-IsSolvent x now b = elim (Bool-cases (f.zero_f <? (b.available ⊖ x))) [
    | inl e ↦ rw e (laws.le_of_lt f.zero_f (b.available ⊖ x) e)
    | inr e ↦ rw e (laws.le_refl f.zero_f)
  ]

  pub add_amount-IsSolvent :
      (x : N) (now : ℕ) (b : Balance N)
      → (f.zero_f ≤? x) ≡ true
      → IsSolvent b
      → IsSolvent (add_amount x now b)
  unfolding add_amount
  add_amount-IsSolvent x now b h s = laws.add_nonneg b.available x s h

module _ {N : Type 0} where
  -- A fetch that succeeds at a time makes the balance fresh until the threshold has passed, and
  -- stale from then on. One that fails does not reset the age.
  pub fetch-is_stale :
      (reply : FetchReply N) (now later : ℕ) (b : Balance N)
      → (((fetch reply now b).0 ≡ true)
          × (is_stale later (fetch reply now b).1 ≡ false ↔ later ≤ now + b.stale_threshold))
        ⊎ (((fetch reply now b).0 ≡ false) × ((fetch reply now b).1.updated_at ≡ b.updated_at))
  unfolding fetch is_stale
  fetch-is_stale no_function now later b = inr (refl, refl)
  fetch-is_stale raised now later b = inr (refl, refl)
  fetch-is_stale nothing now later b = inr (refl, refl)
  fetch-is_stale (balances available total) now later b =
      inl (refl, (λ h. ground arith, λ h. ground arith))
  fetch-is_stale (half_read x) now later b = inr (refl, refl)
  fetch-is_stale other_value now later b = inl (refl, (λ h. ground arith, λ h. ground arith))
  fetch-is_stale (amount x) now later b = inl (refl, (λ h. ground arith, λ h. ground arith))
