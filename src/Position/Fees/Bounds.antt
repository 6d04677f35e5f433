-- ===== src/Position/Fees/Bounds.antt =====
-- Bounds on the amounts of `FeeCalculator`.
use polyfast.Base.{◌≡◌, true, ok, refl}
use polyfast.Float.{Float, FloatLaws, ◌⊖◌, ◌⊗◌, ◌⊘◌, ◌<?◌, ◌≤?◌}
use polyfast.Position.Fees.{
  EntryFill, entry_fill, calculate_sell_fee_usdc, calculate_entry, calculate_exit,
}

module _ {N : Type 0} ⦃f : Float N⦄ ⦃laws : FloatLaws N⦄ where
  -- A rate or a price between 0 and 1.
  pub record IsFraction (x : N) : Type 0 where
    pub nonneg : (f.zero_f ≤? x) ≡ true
    pub at_most_one : (x ≤? f.one_f) ≡ true

  rest-IsFraction : (x : N) → IsFraction x → IsFraction (f.one_f ⊖ x)
  rest-IsFraction x h = record {
    nonneg = laws.sub_nonneg f.one_f x h.at_most_one;
    at_most_one = laws.sub_le f.one_f x h.nonneg;
  }

  mul_fraction_nonneg :
      (a b : N) → (f.zero_f ≤? a) ≡ true → IsFraction b → (f.zero_f ≤? (a ⊗ b)) ≡ true
  mul_fraction_nonneg a b h k = laws.mul_nonneg a b h k.nonneg

  mul_fraction_le :
      (a b c : N) → (f.zero_f ≤? a) ≡ true → (a ≤? c) ≡ true → IsFraction b → ((a ⊗ b) ≤? c) ≡ true
  mul_fraction_le a b c h l k =
      laws.le_trans (a ⊗ b) a c (laws.mul_le a b h k.nonneg k.at_most_one) l

  pub fee_nonneg :
      (shares rate price : N)
      → (f.zero_f ≤? shares) ≡ true
      → IsFraction rate
      → IsFraction price
      → (f.zero_f ≤? (shares ⊗ rate ⊗ price ⊗ (f.one_f ⊖ price))) ≡ true
  fee_nonneg shares rate price h r p =
      mul_fraction_nonneg (shares ⊗ rate ⊗ price) (f.one_f ⊖ price)
        (mul_fraction_nonneg (shares ⊗ rate) price (mul_fraction_nonneg shares rate h r) p)
        (rest-IsFraction price p)

  -- With the price as the factor that is counted first, the fee is at most the shares' value.
  pub fee_le :
      (shares rate price : N)
      → (f.zero_f ≤? shares) ≡ true
      → IsFraction rate
      → IsFraction price
      → ((shares ⊗ rate ⊗ price ⊗ (f.one_f ⊖ price)) ≤? shares) ≡ true
  fee_le shares rate price h r p =
      let h₁ = mul_fraction_nonneg shares rate h r in
      let h₂ = mul_fraction_nonneg (shares ⊗ rate) price h₁ p in
      mul_fraction_le (shares ⊗ rate ⊗ price) (f.one_f ⊖ price) shares h₂
        (mul_fraction_le (shares ⊗ rate) price shares h₁
          (mul_fraction_le shares rate shares h (laws.le_refl shares) r) p)
        (rest-IsFraction price p)

  -- A buy of a nonnegative amount at a price above 0 and at most 1, with a rate between 0 and 1,
  -- succeeds, and the shares that are kept and the fee lie between 0 and the gross shares.
  pub calculate_entry_bounds :
      (rate usd price : N)
      → (f.zero_f ≤? usd) ≡ true
      → (f.zero_f <? price) ≡ true
      → IsFraction rate
      → IsFraction price
      → (e : EntryFill N) × (calculate_entry rate usd price ≡ ok e)
        × ((f.zero_f ≤? e.net_position_shares) ≡ true)
        × ((e.net_position_shares ≤? e.gross_fill_shares) ≡ true)
        × ((f.zero_f ≤? e.entry_fee_shares) ≡ true)
        × ((e.entry_fee_shares ≤? e.gross_fill_shares) ≡ true)
  unfolding calculate_entry entry_fill
  calculate_entry_bounds rate usd price h pos r p =
      let gross = usd ⊘ price in
      let fee = gross ⊗ rate ⊗ price ⊗ (f.one_f ⊖ price) in
      let g = laws.div_nonneg usd price h pos in
      let low = fee_nonneg gross rate price g r p in
      let high = fee_le gross rate price g r p in
      (
        entry_fill rate usd price,
        rw (laws.lt_not_eqf f.zero_f price pos) refl,
        laws.round_nonneg (gross ⊖ fee) 8 (laws.sub_nonneg gross fee high),
        laws.round_le (gross ⊖ fee) gross 8 (laws.sub_le gross fee low),
        laws.round_nonneg fee 8 low,
        laws.round_le fee gross 8 high,
      )

  -- A sale of a nonnegative number of shares brings a net amount that is at most the gross amount,
  -- and the fee is at least 0, for a price and a rate between 0 and 1.
  pub calculate_exit_bounds :
      (rate shares price : N)
      → (f.zero_f ≤? shares) ≡ true
      → IsFraction rate
      → IsFraction price
      → let e = calculate_exit rate shares price in
        ((e.net_exit_usdc ≤? e.exit_gross_usdc) ≡ true)
        × ((f.zero_f ≤? e.actual_exit_fee_usdc) ≡ true)
        × ((f.zero_f ≤? e.exit_gross_usdc) ≡ true)
  unfolding calculate_exit calculate_sell_fee_usdc
  calculate_exit_bounds rate shares price h r p =
      let gross = shares ⊗ price in
      let fee = shares ⊗ rate ⊗ price ⊗ (f.one_f ⊖ price) in
      let low = fee_nonneg shares rate price h r p in
      (
        laws.round_le (gross ⊖ fee) gross 8 (laws.sub_le gross fee low),
        laws.round_nonneg fee 8 low,
        laws.round_nonneg gross 8 (laws.mul_nonneg shares price h p.nonneg),
      )
