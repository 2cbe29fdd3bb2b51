-- ===== src/Float.antt =====
-- The numbers of the language (IEEE doubles), as an interface: the operations that scoring uses, and
-- laws that rounding to nearest keeps. No law speaks of an exact result but adding 0: they hold
-- of doubles that are finite, since rounding is monotone and gives back what a double can hold.
pub mod Fraction
use tmx_assessment.Prelude.{ℕ, suc, ◌≤◌, ◌≡◌, Bool, true, false, not}

pub record Float : Type 1 where
  pub F : Type 0
  -- a whole number
  pub of_ℕ : ℕ → F
  pub add : F → F → F
  pub sub : F → F → F
  pub mul : F → F → F
  pub div : F → F → F
  -- a <= b
  pub le : F → F → Bool
  pub le_refl : (a : F) → le a a ≡ true
  pub le_trans : (a b c : F) → le a b ≡ true → le b c ≡ true → le a c ≡ true
  pub le_total : (a b : F) → le a b ≡ false → le b a ≡ true
  pub of_mono : (m n : ℕ) → m ≤ n → le (of_ℕ m) (of_ℕ n) ≡ true
  pub of_pos : (n : ℕ) → le (of_ℕ (suc n)) (of_ℕ 0) ≡ false
  pub zero_add : (a : F) → add (of_ℕ 0) a ≡ a
  pub add_zero : (a : F) → add a (of_ℕ 0) ≡ a
  pub add_mono : (a b c d : F) → le a b ≡ true → le c d ≡ true → le (add a c) (add b d) ≡ true
  pub add_one : (n : ℕ) → le (add (of_ℕ n) (of_ℕ 1)) (of_ℕ (suc n)) ≡ true
  pub sub_le : (a b : F) → le (of_ℕ 0) b ≡ true → le (sub a b) a ≡ true
  pub mul_nonneg :
      (a b : F) → le (of_ℕ 0) a ≡ true → le (of_ℕ 0) b ≡ true → le (of_ℕ 0) (mul a b) ≡ true
  pub mul_le : (a b : F) → le (of_ℕ 0) a ≡ true → le b (of_ℕ 1) ≡ true → le (mul a b) a ≡ true
  pub div_nonneg :
      (a c : F) → le (of_ℕ 0) a ≡ true → le c (of_ℕ 0) ≡ false → le (of_ℕ 0) (div a c) ≡ true
  pub div_le_one : (a c : F) → le c (of_ℕ 0) ≡ false → le a c ≡ true → le (div a c) (of_ℕ 1) ≡ true

module _ (fl : Float) where
  open fl use {F, of_ℕ, div, le}

  -- a < b, of numbers that are not NaN
  abbrev pub lt : F → F → Bool
  lt a b = not (le b a)

  abbrev pub half : F
  half = div (of_ℕ 1) (of_ℕ 2)
