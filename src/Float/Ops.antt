-- ===== src/Float/Ops.antt =====
-- The operations of Python's float that the code calls, and their operators.
use polyfast.Base.{ℕ, Bool, true, false}

pub record Float (N : Type 0) : Type 0 where
  pub zero_f : N  -- 0.0
  pub one_f : N  -- 1.0
  pub hundred : N  -- 100
  pub add : N → N → N
  pub sub : N → N → N
  pub mul : N → N → N
  pub div : N → N → N  -- where the divisor is not 0; what raises at 0 is written out in the code
  pub lt : N → N → Bool  -- a < b
  pub le : N → N → Bool  -- a <= b
  pub eqf : N → N → Bool  -- a == b
  pub round : N → ℕ → N  -- round(x, n)

infixl 65 ◌⊕◌ ◌⊖◌
infixl 70 ◌⊗◌ ◌⊘◌
infix 50 ◌<?◌ ◌≤?◌
abbrev pub ◌⊕◌ : {N : Type 0} ⦃f : Float N⦄ → N → N → N
◌⊕◌ ⦃f⦄ = f.add

abbrev pub ◌⊖◌ : {N : Type 0} ⦃f : Float N⦄ → N → N → N
◌⊖◌ ⦃f⦄ = f.sub

abbrev pub ◌⊗◌ : {N : Type 0} ⦃f : Float N⦄ → N → N → N
◌⊗◌ ⦃f⦄ = f.mul

abbrev pub ◌⊘◌ : {N : Type 0} ⦃f : Float N⦄ → N → N → N
◌⊘◌ ⦃f⦄ = f.div

abbrev pub ◌<?◌ : {N : Type 0} ⦃f : Float N⦄ → N → N → Bool
◌<?◌ ⦃f⦄ = f.lt

abbrev pub ◌≤?◌ : {N : Type 0} ⦃f : Float N⦄ → N → N → Bool
◌≤?◌ ⦃f⦄ = f.le

-- -x
abbrev pub neg : {N : Type 0} ⦃f : Float N⦄ → N → N
neg ⦃f⦄ x = f.sub f.zero_f x

-- abs(x)
abbrev pub abs : {N : Type 0} ⦃f : Float N⦄ → N → N
abs ⦃f⦄ x = elim (f.lt x f.zero_f) [ true ↦ f.sub f.zero_f x | false ↦ x ]
