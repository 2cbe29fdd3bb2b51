-- ===== src/Float/Fraction.antt =====
-- Fractions from 0 up meet the laws of the interface: `(n, d)` is n / (d + 1), and a difference below
-- 0 is 0. The tests run on them.
use native.Mathlib.Nat.{le_of_mul-le-mul_right, mul-le-mul_right, sub-le}
use tmx_assessment.Prelude.{ℕ, zero, suc, ◌+◌, ◌*◌, ◌-◌, ◌≤◌, ◌≡◌, Bool, true, false, arith, leb}
use tmx_assessment.Float.{Float}

abbrev pub Fraction : Type 0
Fraction = ℕ × ℕ

abbrev pub whole : ℕ → Fraction
whole n = (n, 0)

-- n / (d + 1) over the product of two denominators
abbrev den : ℕ → ℕ → ℕ
den b d = b * d + b + d

unfoldable pub add : Fraction → Fraction → Fraction
add (a, b) (c, d) = (a * suc d + c * suc b, den b d)

unfoldable pub sub : Fraction → Fraction → Fraction
sub (a, b) (c, d) = (a * suc d - c * suc b, den b d)

unfoldable pub mul : Fraction → Fraction → Fraction
mul (a, b) (c, d) = (a * c, den b d)

-- A quotient by 0 does not occur.
unfoldable pub div : Fraction → Fraction → Fraction
div (a, b) (zero, d) = (0, 0)
div (a, b) (suc c, d) = (a * suc d, den b c)

unfoldable pub le : Fraction → Fraction → Bool
le (a, b) (c, d) = leb (a * suc d) (c * suc b)

le_holds : (a b c d : ℕ) → a * suc d ≤ c * suc b → le (a, b) (c, d) ≡ true
unfolding le
le_holds a b c d h = ground arith

of_le : (a b c d : ℕ) → le (a, b) (c, d) ≡ true → a * suc d ≤ c * suc b
unfolding le
of_le a b c d h = ground arith

pub le_refl : (x : Fraction) → le x x ≡ true
unfolding le
le_refl (a, b) = ground arith

pub le_trans : (x y z : Fraction) → le x y ≡ true → le y z ≡ true → le x z ≡ true
le_trans (a, b) (c, d) (e, f) p q = le_holds a b e f (
    le_of_mul-le-mul_right {k = suc d}
      (omega (
        arith,
        mul-le-mul_right (suc f) (of_le a b c d p),
        mul-le-mul_right (suc b) (of_le c d e f q),
      ))
      (omega arith))

pub le_total : (x y : Fraction) → le x y ≡ false → le y x ≡ true
unfolding le
le_total (a, b) (c, d) h = ground arith

pub zero_add : (x : Fraction) → add (whole 0) x ≡ x
unfolding add
zero_add (a, b) = ground arith

pub add_zero : (x : Fraction) → add x (whole 0) ≡ x
unfolding add
add_zero (a, b) = ground arith

pub add_mono : (x y z w : Fraction) → le x y ≡ true → le z w ≡ true → le (add x z) (add y w) ≡ true
unfolding add
add_mono (a, b) (e, f) (c, d) (g, h) p q =
    le_holds (a * suc d + c * suc b) (den b d) (e * suc h + g * suc f) (den f h) (
      omega (
        arith,
        mul-le-mul_right (suc d * suc h) (of_le a b e f p),
        mul-le-mul_right (suc b * suc f) (of_le c d g h q),
      ))

pub sub_le : (x y : Fraction) → le (sub x y) x ≡ true
unfolding sub
sub_le (a, b) (c, d) =
    le_holds (a * suc d - c * suc b) (den b d) a b
      (omega (arith, mul-le-mul_right (suc b) (sub-le (a * suc d) (c * suc b))))

pub mul_le : (x y : Fraction) → le y (whole 1) ≡ true → le (mul x y) x ≡ true
unfolding mul
mul_le (a, b) (c, d) q =
    le_holds (a * c) (den b d) a b (omega (arith, mul-le-mul_right (a * suc b) (of_le c d 1 0 q)))

pub nonneg : (x : Fraction) → le (whole 0) x ≡ true
unfolding le
nonneg (a, b) = ground arith

pub div_le_one :
    (x y : Fraction) → le y (whole 0) ≡ false → le x y ≡ true → le (div x y) (whole 1) ≡ true
unfolding div
div_le_one (a, b) (zero, d) p q = le_holds 0 0 1 0 (omega arith)
div_le_one (a, b) (suc c, d) p q =
    le_holds (a * suc d) (den b c) 1 0 (omega (arith, of_le a b (suc c) d q))

pub of_mono : (m n : ℕ) → m ≤ n → le (whole m) (whole n) ≡ true
unfolding le
of_mono m n h = ground arith

pub of_pos : (n : ℕ) → le (whole (suc n)) (whole 0) ≡ false
unfolding le
of_pos n = ground arith

pub add_one : (n : ℕ) → le (add (whole n) (whole 1)) (whole (suc n)) ≡ true
unfolding le add
add_one n = ground arith

abbrev pub fractions : Float
fractions = record {
  F = Fraction;
  of_ℕ = whole;
  add = add;
  sub = sub;
  mul = mul;
  div = div;
  le = le;
  le_refl = le_refl;
  le_trans = le_trans;
  le_total = le_total;
  of_mono = of_mono;
  of_pos = of_pos;
  zero_add = zero_add;
  add_zero = add_zero;
  add_mono = add_mono;
  add_one = add_one;
  sub_le = λ x y _. sub_le x y;
  mul_nonneg = λ x y _ _. nonneg (mul x y);
  mul_le = λ x y _ q. mul_le x y q;
  div_nonneg = λ x y _ _. nonneg (div x y);
  div_le_one = div_le_one;
}
