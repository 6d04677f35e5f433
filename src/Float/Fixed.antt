-- ===== src/Float/Fixed.antt =====
-- A concrete number type for tests and witnesses: signed hundredths. Products and quotients are
-- cut towards 0 at two digits, and rounding to two or more digits changes nothing.
use polyfast.Base.{ℕ, suc, ◌*◌, ◌/◌, ◌≡◌, refl, true, ◌&&◌, arith, ◌≤◌}
use polyfast.Base.Int.{ℤ, pos, negsuc, ◌+ℤ◌, ◌-ℤ◌, ◌*ℤ◌, quot_ℕ, leb_ℤ, ltb_ℤ}
use polyfast.Float.Ops.{Float}
use polyfast.Float.Laws.{FloatLaws}

-- a / b in hundredths.
unfoldable pub div_fixed : ℤ → ℤ → ℤ
div_fixed a (pos n) = quot_ℕ (a *ℤ pos 100) n
div_fixed a (negsuc n) = quot_ℕ (a *ℤ negsuc 99) (suc n)

unfoldable pub mul_fixed : ℤ → ℤ → ℤ
mul_fixed a b = quot_ℕ (a *ℤ b) 100

instance abbrev pub fixed : Float ℤ
fixed = record {
  zero_f = pos 0;
  one_f = pos 100;
  hundred = pos 10000;
  add = ◌+ℤ◌;
  sub = ◌-ℤ◌;
  mul = mul_fixed;
  div = div_fixed;
  lt = ltb_ℤ;
  le = leb_ℤ;
  eqf = λ a b. leb_ℤ a b && leb_ℤ b a;
  round = λ a n. a;
}

add_nonneg :
    (a b : ℤ) → leb_ℤ (pos 0) a ≡ true → leb_ℤ (pos 0) b ≡ true → leb_ℤ (pos 0) (a +ℤ b) ≡ true
unfolding ◌+ℤ◌
add_nonneg a b h k = ground arith

sub_nonneg : (a b : ℤ) → leb_ℤ b a ≡ true → leb_ℤ (pos 0) (a -ℤ b) ≡ true
unfolding ◌-ℤ◌
sub_nonneg a b h = ground arith

sub_le : (a b : ℤ) → leb_ℤ (pos 0) b ≡ true → leb_ℤ (a -ℤ b) a ≡ true
unfolding ◌-ℤ◌
sub_le a b h = ground arith

mul_nonneg :
    (a b : ℤ)
    → leb_ℤ (pos 0) a ≡ true
    → leb_ℤ (pos 0) b ≡ true
    → leb_ℤ (pos 0) (mul_fixed a b) ≡ true
unfolding mul_fixed quot_ℕ ◌*ℤ◌
mul_nonneg a b h k = ground arith

mul_le_ℕ : (m n : ℕ) → n ≤ 100 → m * n / 100 ≤ m
mul_le_ℕ m n h = grind arith

mul_le :
    (a b : ℤ)
    → leb_ℤ (pos 0) a ≡ true
    → leb_ℤ (pos 0) b ≡ true
    → leb_ℤ b (pos 100) ≡ true
    → leb_ℤ (mul_fixed a b) a ≡ true
unfolding mul_fixed quot_ℕ ◌*ℤ◌
mul_le (pos m) (pos n) h k l = ground (arith, mul_le_ℕ m n)
mul_le (pos m) (negsuc n) h k l = ground arith
mul_le (negsuc m) b h k l = ground arith

div_nonneg :
    (a b : ℤ)
    → leb_ℤ (pos 0) a ≡ true
    → ltb_ℤ (pos 0) b ≡ true
    → leb_ℤ (pos 0) (div_fixed a b) ≡ true
unfolding div_fixed quot_ℕ ◌*ℤ◌
div_nonneg (pos m) (pos n) h k = ground arith
div_nonneg (pos m) (negsuc n) h k = ground arith
div_nonneg (negsuc m) b h k = ground arith

instance pub fixed_laws : FloatLaws ℤ
fixed_laws = record {
  le_refl = λ a. ground arith;
  le_trans = λ a b c h k. ground arith;
  lt_not_le = λ a b. ground arith;
  le_of_lt = λ a b h. ground arith;
  lt_not_eqf = λ a b h. ground arith;
  zero_le_one = refl;
  add_nonneg = add_nonneg;
  sub_nonneg = sub_nonneg;
  sub_le = sub_le;
  mul_nonneg = mul_nonneg;
  mul_le = mul_le;
  div_nonneg = div_nonneg;
  round_le = λ a b n h. h;
  round_nonneg = λ a n h. h;
}
