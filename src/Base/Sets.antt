-- ===== src/Base/Sets.antt =====
-- Sets of texts: the list that Python's `sorted` makes of a set, with what it contains.
use polyfast.Base.Tests.{if◌then◌else◌, ltb, Bool-cases, is_some}
use polyfast.Base.Lists.{select, IsIn, in_head, in_tail}
use polyfast.Base.Dict.{Dict, get}
use Prim.Native.Nat.{ℕ}
use Prim.Native.Char.{code}
use Prim.Native.String.{String}
use mathlib.Core.Path.{◌≡◌, refl}
use mathlib.Core.Logic.{inl, inr}
use mathlib.Core.Bool.{Bool, true, false, ◌&&◌, ◌||◌}
use mathlib.Core.List.{◌++◌, map, List, [], ◌∷◌}
use native.Mathlib.Omega.{arith}
use text.Mathlib.Text.{◌==◌ as str_eq}
use text.Mathlib.TextEquality.{eq_iff}
use text.Mathlib.TextPositions.{eq_refl}

-- The code points of a text.
abbrev pub codes : String → List ℕ
codes String.[] = []
codes (String.◌∷◌ c s) = code c ∷ codes s

-- `s < t`, by code points.
unfoldable pub codes_lt : List ℕ → List ℕ → Bool
codes_lt [] [] = false
codes_lt [] (d ∷ ds) = true
codes_lt (c ∷ cs) [] = false
codes_lt (c ∷ cs) (d ∷ ds) =
    let rest = codes_lt cs ds in if ltb c d then true else if ltb d c then false else rest

-- `x in xs`
unfoldable pub contains : List String → String → Bool
contains [] a = false
contains (x ∷ xs) a = str_eq x a || contains xs a

unfoldable pub insert_sorted : String → List String → List String
insert_sorted x [] = x ∷ []
insert_sorted x (y ∷ ys) =
    let rest = insert_sorted x ys in
    if str_eq x y then y ∷ ys else if codes_lt (codes x) (codes y) then x ∷ y ∷ ys else y ∷ rest

-- `sorted(set(xs))`
unfoldable pub sorted_set : List String → List String
sorted_set [] = []
sorted_set (x ∷ xs) = insert_sorted x (sorted_set xs)

-- `d.keys()`
unfoldable pub keys {ℓ} : {V : Type ℓ} → Dict V → List String
keys [] = []
keys ((k, v) ∷ d) = k ∷ keys d

contains-insert_sorted :
    (x : String) (ys : List String) (a : String)
    → contains (insert_sorted x ys) a ≡ (str_eq x a || contains ys a)
unfolding contains insert_sorted
contains-insert_sorted x [] a = refl
contains-insert_sorted x (y ∷ ys) a =
    ground (arith, eq_iff x y, eq_iff x a, eq_iff y a, contains-insert_sorted x ys a)

pub contains-sorted_set :
    (xs : List String) (a : String) → contains (sorted_set xs) a ≡ contains xs a
unfolding contains sorted_set
contains-sorted_set [] a = refl
contains-sorted_set (x ∷ xs) a =
    ground (arith, contains-insert_sorted x (sorted_set xs) a, contains-sorted_set xs a)

pub contains-select :
    (p : String → Bool) (xs : List String) (a : String)
    → contains (select p xs) a ≡ (contains xs a && p a)
unfolding contains select
contains-select p [] a = refl
contains-select p (x ∷ xs) a = elim (Bool-cases (str_eq x a)) [
  | inl same ↦
      let e : x ≡ a = (eq_iff x a).0 same in
      rw e (ground (arith, contains-select p xs a, eq_refl a))
  | inr other ↦ ground (arith, contains-select p xs a)
]

pub contains-keys {ℓ} :
    {V : Type ℓ} (d : Dict V) (a : String) → contains (keys d) a ≡ is_some (get d a)
unfolding contains keys get
contains-keys [] a = refl
contains-keys ((k, v) ∷ d) a = ground (arith, contains-keys d a)

-- What is in the list is contained in it.
pub IsIn-contains : (xs : List String) (a : String) → contains xs a ≡ true → IsIn a xs
unfolding contains
IsIn-contains [] a h = absurd (ground arith)
IsIn-contains (x ∷ xs) a h = elim (Bool-cases (str_eq x a)) [
  | inl same ↦ in_head (ground (arith, eq_iff x a))
  | inr other ↦ in_tail (IsIn-contains xs a (ground arith))
]

pub contains-append :
    (xs ys : List String) (a : String) → contains (xs ++ ys) a ≡ (contains xs a || contains ys a)
unfolding contains
contains-append [] ys a = refl
contains-append (x ∷ xs) ys a = ground (arith, contains-append xs ys a)

pub contains-map :
    (f : String → String) (xs : List String) (a : String)
    → contains xs a ≡ true
    → contains (map f xs) (f a) ≡ true
unfolding contains
contains-map f [] a h = h
contains-map f (x ∷ xs) a h = elim (Bool-cases (str_eq x a)) [
  | inl same ↦ let e : x ≡ a = (eq_iff x a).0 same in rw e (ground (arith, eq_refl (f a)))
  | inr other ↦ ground (arith, contains-map f xs a)
]
