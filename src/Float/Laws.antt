-- ===== src/Float/Laws.antt =====
-- What the proofs use of float arithmetic: each law is one of IEEE 754 at finite values, with
-- rounding to nearest, which is monotone.
use polyfast.Base.{ℕ, true, false, not, ◌≡◌}
use polyfast.Float.Ops.{Float, ◌⊕◌, ◌⊖◌, ◌⊗◌, ◌<?◌, ◌≤?◌}

pub record FloatLaws (N : Type 0) ⦃f : Float N⦄ : Type 0 where
  pub le_refl : (a : N) → (a ≤? a) ≡ true
  pub le_trans : (a b c : N) → (a ≤? b) ≡ true → (b ≤? c) ≡ true → (a ≤? c) ≡ true
  pub lt_not_le : (a b : N) → (a <? b) ≡ not (b ≤? a)
  pub le_of_lt : (a b : N) → (a <? b) ≡ true → (a ≤? b) ≡ true
  pub lt_not_eqf : (a b : N) → (a <? b) ≡ true → f.eqf b a ≡ false
  pub zero_le_one : (f.zero_f ≤? f.one_f) ≡ true
  pub add_nonneg :
      (a b : N) → (f.zero_f ≤? a) ≡ true → (f.zero_f ≤? b) ≡ true → (f.zero_f ≤? (a ⊕ b)) ≡ true
  pub sub_nonneg : (a b : N) → (b ≤? a) ≡ true → (f.zero_f ≤? (a ⊖ b)) ≡ true
  pub sub_le : (a b : N) → (f.zero_f ≤? b) ≡ true → ((a ⊖ b) ≤? a) ≡ true
  pub mul_nonneg :
      (a b : N) → (f.zero_f ≤? a) ≡ true → (f.zero_f ≤? b) ≡ true → (f.zero_f ≤? (a ⊗ b)) ≡ true
  pub mul_le :
      (a b : N)
      → (f.zero_f ≤? a) ≡ true
      → (f.zero_f ≤? b) ≡ true
      → (b ≤? f.one_f) ≡ true
      → ((a ⊗ b) ≤? a) ≡ true
  pub div_nonneg :
      (a b : N) → (f.zero_f ≤? a) ≡ true → (f.zero_f <? b) ≡ true → (f.zero_f ≤? f.div a b) ≡ true
  pub round_le : (a b : N) (n : ℕ) → (a ≤? b) ≡ true → (f.round a n ≤? f.round b n) ≡ true
  pub round_nonneg : (a : N) (n : ℕ) → (f.zero_f ≤? a) ≡ true → (f.zero_f ≤? f.round a n) ≡ true
