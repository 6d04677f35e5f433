-- ===== src/Base/Lists.antt =====
-- Lists measured and filtered by Boolean tests.
use polyfast.Base.Tests.{if◌then◌else◌, Bool-cases}
use Prim.Native.Nat.{ℕ, suc}
use mathlib.Core.Path.{◌≡◌, refl, sym, ap, ◌∙◌, subst}
use mathlib.Core.Logic.{◌⊎◌, inl, inr}
use mathlib.Core.Bool.{Bool, true, false, ◌||◌}
use mathlib.Core.List.{List, [], ◌∷◌}

module _ {ℓ} {A : Type ℓ} where
  abbrev pub length : List A → ℕ
  length [] = 0
  length (x ∷ xs) = suc (length xs)

  -- `[x for x in xs if p(x)]`
  unfoldable pub select : (A → Bool) → List A → List A
  select p [] = []
  select p (x ∷ xs) = let rest = select p xs in if p x then x ∷ rest else rest

  -- `sum(1 for x in xs if p(x))`
  unfoldable pub count_if : (A → Bool) → List A → ℕ
  count_if p [] = 0
  count_if p (x ∷ xs) = let rest = count_if p xs in if p x then suc rest else rest

  -- `any(p(x) for x in xs)`
  unfoldable pub any : (A → Bool) → List A → Bool
  any p [] = false
  any p (x ∷ xs) = p x || any p xs

-- The item stands in the list.
pub data IsIn {ℓ} {A : Type ℓ} (x : A) : List A → Type ℓ where
  in_head : {y : A} {ys : List A} → x ≡ y → IsIn x (y ∷ ys)
  in_tail : {y : A} {ys : List A} → IsIn x ys → IsIn x (y ∷ ys)

pub IsIn-select :
    {A : Type 0} (p : A → Bool) (x : A) (xs : List A)
    → IsIn x xs
    → p x ≡ true
    → IsIn x (select p xs)
unfolding select
IsIn-select p x [] i h = elim i [ ]
IsIn-select p x (y ∷ ys) (in_head e) h = rw (ap p (sym e) ∙ h) (in_head e)
IsIn-select p x (y ∷ ys) (in_tail i) h = elim (Bool-cases (p y)) [
  | inl kept ↦ rw kept (in_tail (IsIn-select p x ys i h))
  | inr passed ↦ rw passed (IsIn-select p x ys i h)
]

pub select-IsIn :
    {A : Type 0} (p : A → Bool) (x : A) (xs : List A)
    → IsIn x (select p xs)
    → IsIn x xs × (p x ≡ true)
unfolding select
select-IsIn p x [] i = elim i [ ]
select-IsIn p x (y ∷ ys) i = elim (Bool-cases (p y)) [
  | inl kept ↦
      let j : IsIn x (y ∷ select p ys) =
        subst (IsIn x) (ap (λ b. if b then y ∷ select p ys else select p ys) kept) i in
      elim j [
        | in_head e ↦ (in_head e, ap p e ∙ kept)
        | in_tail k ↦ let (l, h) = select-IsIn p x ys k in (in_tail l, h)
      ]
  | inr passed ↦
      let k : IsIn x (select p ys) =
        subst (IsIn x) (ap (λ b. if b then y ∷ select p ys else select p ys) passed) i in
      let (l, h) = select-IsIn p x ys k in (in_tail l, h)
]

pub List-cases {ℓ} : {A : Type ℓ} (l : List A) → (l ≡ []) ⊎ ((x : A) × (xs : List A) × (l ≡ x ∷ xs))
List-cases [] = inl refl
List-cases (x ∷ xs) = inr (x, xs, refl)
