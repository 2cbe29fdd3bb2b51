-- ===== src/Prelude/Counting.antt =====
-- How a count over a list follows a change of the list, and lists of names that do not repeat.
use Prim.Native.Nat.{suc, ◌+◌, ◌≤◌}
use mathlib.Core.Path.{◌≡◌, refl, ap}
use mathlib.Core.Logic.{◌⊎◌}
use mathlib.Core.Bool.{Bool, true, false, ◌&&◌}
use mathlib.Core.List.{List, [], ◌∷◌, ◌++◌, map}
use mathlib.Core.Option.{some}
use native.Mathlib.Omega.{arith}
use tmx_assessment.Prelude.Tests.{if◌then◌else◌}
use tmx_assessment.Prelude.Lists.{length, any, find?, filter, count_if}
use tmx_assessment.Prelude.Permute.{count_if_perm}
use tmx_assessment.Prelude.Sort.{sort, sort-perm}

module _ {ℓ} {A : Type ℓ} where
  pub count_if-filter :
      (p q : A → Bool) (xs : List A) → count_if p (filter q xs) ≡ count_if (λ x. q x && p x) xs
  count_if-filter p q [] = refl
  count_if-filter p q (x ∷ xs) = ground (arith, count_if-filter p q xs)

  pub count_if-map {κ} :
      {B : Type κ} (p : B → Bool) (f : A → B) (xs : List A)
      → count_if p (map f xs) ≡ count_if (λ x. p (f x)) xs
  count_if-map p f [] = refl
  count_if-map p f (x ∷ xs) = ground (arith, count_if-map p f xs)

  pub count_if-sort :
      (before : A → A → Bool) (p : A → Bool) (xs : List A)
      → count_if p (sort before xs) ≡ count_if p xs
  count_if-sort before p xs = count_if_perm p (sort-perm before xs)

  pub any_count : (p : A → Bool) (xs : List A) → any p xs ≡ false → count_if p xs ≡ 0
  any_count p [] h = refl
  any_count p (x ∷ xs) h = ground (arith, any_count p xs)

  pub count_any : (p : A → Bool) (xs : List A) → count_if p xs ≡ 0 → any p xs ≡ false
  count_any p [] h = refl
  count_any p (x ∷ xs) h = ground (arith, count_any p xs)

  pub count_if_all : (xs : List A) → count_if (λ x. true) xs ≡ length xs
  count_if_all [] = refl
  count_if_all (x ∷ xs) = ap suc (count_if_all xs)

  pub count_if_ext :
      (p q : A → Bool) (xs : List A) → ((x : A) → p x ≡ q x) → count_if p xs ≡ count_if q xs
  count_if_ext p q [] h = refl
  count_if_ext p q (x ∷ xs) h = ground (arith, h x, count_if_ext p q xs h)

  -- What passes one test passes one of two others.
  pub count_if_bound :
      (p q r : A → Bool) (xs : List A)
      → ((x : A) → p x ≡ true → (q x ≡ true) ⊎ (r x ≡ true))
      → count_if p xs ≤ count_if q xs + count_if r xs
  count_if_bound p q r [] h = omega arith
  count_if_bound p q r (x ∷ xs) h = ground (arith, h x, count_if_bound p q r xs h)

  pub count_if_le :
      (p q : A → Bool) (xs : List A)
      → ((x : A) → p x ≡ true → q x ≡ true)
      → count_if p xs ≤ count_if q xs
  count_if_le p q [] h = omega arith
  count_if_le p q (x ∷ xs) h = ground (arith, h x, count_if_le p q xs h)

  pub count_if-filter_le : (p q : A → Bool) (xs : List A) → count_if p (filter q xs) ≤ count_if p xs
  count_if-filter_le p q [] = omega arith
  count_if-filter_le p q (x ∷ xs) = ground (arith, count_if-filter_le p q xs)

  -- Two tests that nothing passes together.
  pub count_if_apart :
      (p q r : A → Bool) (xs : List A)
      → ((x : A) → p x ≡ true → r x ≡ true)
      → ((x : A) → q x ≡ true → r x ≡ true)
      → ((x : A) → p x ≡ true → q x ≡ false)
      → count_if p xs + count_if q xs ≤ count_if r xs
  count_if_apart p q r [] h k n = omega arith
  count_if_apart p q r (x ∷ xs) h k n = ground (arith, h x, k x, n x, count_if_apart p q r xs h k n)

  pub find?_passes : (p : A → Bool) (xs : List A) (a : A) → find? p xs ≡ some a → p a ≡ true
  find?_passes p [] a h = ground arith
  find?_passes p (x ∷ xs) a h = ground (arith, find?_passes p xs a)

  pub find?_count : (p : A → Bool) (xs : List A) (a : A) → find? p xs ≡ some a → 1 ≤ count_if p xs
  find?_count p [] a h = ground arith
  find?_count p (x ∷ xs) a h = ground (arith, find?_count p xs a)

  pub count_if-snoc :
      (p : A → Bool) (xs : List A) (x : A)
      → count_if p (xs ++ x ∷ []) ≡ count_if p xs + (if p x then 1 else 0)
  count_if-snoc p [] x = ground arith
  count_if-snoc p (y ∷ ys) x = ground (arith, count_if-snoc p ys x)

  pub counted_any : (p : A → Bool) (xs : List A) → 1 ≤ count_if p xs → any p xs ≡ true
  counted_any p [] h = ground arith
  counted_any p (x ∷ xs) h = ground (arith, counted_any p xs)

  pub find?_first :
      (p : A → Bool) (x : A) (xs : List A) (a : A) → p x ≡ true → find? p (x ∷ xs) ≡ some a → x ≡ a
  find?_first p x xs a e h = ground arith

  pub find?_later :
      (p : A → Bool) (x : A) (xs : List A) (a : A)
      → p x ≡ false
      → find? p (x ∷ xs) ≡ some a
      → find? p xs ≡ some a
  find?_later p x xs a e h = ground arith
