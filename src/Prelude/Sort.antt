-- ===== src/Prelude/Sort.antt =====
-- `Array.prototype.sort` with a comparison: stable, smallest first. The standard fixes the result
-- of a stable sort, which insertion gives.
use mathlib.Core.List.{List, [], ◌∷◌, ◌++◌, map, Perm}
use mathlib.Core.List.Perm
use mathlib.Core.Path.{◌≡◌, refl}
use mathlib.Core.Bool.{Bool, true, false}
use mathlib.Core.Logic.{inl, inr}
use native.Mathlib.Omega.{arith}
use tmx_assessment.Prelude.Tests.{if◌then◌else◌, Bool-cases}
use tmx_assessment.Prelude.Lists.{All, All-map}

module _ {ℓ} {A : Type ℓ} (before : A → A → Bool) where
  -- `before x y` says that `x` goes strictly before `y`; `insert` puts an element that came first
  -- in front of those that it ties with.
  insert : A → List A → List A
  insert x [] = x ∷ []
  insert x (y ∷ ys) = if before y x then y ∷ insert x ys else x ∷ y ∷ ys

  unfoldable pub sort : List A → List A
  unfolding insert
  sort [] = []
  sort (x ∷ xs) = insert x (sort xs)

  insert-perm : (x : A) (xs : List A) → Perm (insert x xs) (x ∷ xs)
  unfolding insert
  insert-perm x [] = Perm.refl (x ∷ [])
  insert-perm x (y ∷ ys) = elim (Bool-cases (before y x)) [
    | inl e ↦ rw e (Perm.trans (Perm.cons y (insert-perm x ys)) (Perm.swap x y ys))
    | inr e ↦ rw e (Perm.refl (x ∷ y ∷ ys))
  ]

  pub sort-perm : (xs : List A) → Perm (sort xs) xs
  unfolding sort
  sort-perm [] = Perm.refl []
  sort-perm (x ∷ xs) = Perm.trans (insert-perm x (sort xs)) (Perm.cons x (sort-perm xs))

  insert-Holds {κ} : (P : A → Type κ) (x : A) (xs : List A) → P x → All P xs → All P (insert x xs)
  unfolding insert
  insert-Holds P x [] h a = (h, tt)
  insert-Holds P x (y ∷ ys) h a = elim (Bool-cases (before y x)) [
    | inl e ↦ rw e (a.0, insert-Holds P x ys h a.1)
    | inr e ↦ rw e (h, a)
  ]

  pub sort-All {κ} : (P : A → Type κ) (xs : List A) → All P xs → All P (sort xs)
  unfolding sort
  sort-All P [] a = tt
  sort-All P (x ∷ xs) a = insert-Holds P x (sort xs) a.0 (sort-All P xs a.1)

  -- Each element is followed by none that goes strictly before it.
  abbrev pub IsSorted : List A → Type ℓ
  IsSorted [] = Unit
  IsSorted (x ∷ xs) = All (λ y. before y x ≡ false) xs × IsSorted xs

  insert_front : (x : A) (xs : List A) → All (λ y. before y x ≡ false) xs → insert x xs ≡ x ∷ xs
  unfolding insert
  insert_front x [] h = refl
  insert_front x (y ∷ ys) h = rw h.0 refl

  -- A sorted list stays as it is.
  pub sort_sorted : (xs : List A) → IsSorted xs → sort xs ≡ xs
  unfolding sort
  sort_sorted [] s = refl
  sort_sorted (x ∷ xs) s = rw (sort_sorted xs s.1) (insert_front x xs s.0)

  -- An element that came last goes behind those that it ties with.
  abbrev pub insert_last : A → List A → List A
  insert_last n [] = n ∷ []
  insert_last n (y ∷ ys) =
      let rest = insert_last n ys in if before n y then n ∷ y ∷ ys else y ∷ rest

  module _ (trans_true : (x y z : A) → before x y ≡ true → before y z ≡ true → before x z ≡ true)
      (trans_false : (x y z : A)
        → before x y ≡ false
        → before y z ≡ false
        → before x z ≡ false) where
    insert-insert_last :
        (x n : A) (ys : List A) → insert x (insert_last n ys) ≡ insert_last n (insert x ys)
    unfolding insert
    insert-insert_last x n [] = ground arith
    insert-insert_last x n (y ∷ ys) =
        ground (arith, trans_true n y x, trans_false n y x, insert-insert_last x n ys)

    pub sort-snoc : (xs : List A) (n : A) → sort (xs ++ n ∷ []) ≡ insert_last n (sort xs)
    unfolding sort insert
    sort-snoc [] n = refl
    sort-snoc (x ∷ xs) n = rw (sort-snoc xs n) (insert-insert_last x n (sort xs))

  module _ (f : A → A) (same : (x y : A) → before (f x) (f y) ≡ before x y) where
    insert-map : (x : A) (ys : List A) → insert (f x) (map f ys) ≡ map f (insert x ys)
    unfolding insert
    insert-map x [] = refl
    insert-map x (y ∷ ys) = elim (Bool-cases (before y x)) [
      | inl e ↦ rw (same y x, e, insert-map x ys) refl
      | inr e ↦ rw (same y x, e) refl
    ]

    -- Sorting goes through a change that keeps the order.
    pub sort-map : (xs : List A) → sort (map f xs) ≡ map f (sort xs)
    unfolding sort
    sort-map [] = refl
    sort-map (x ∷ xs) = rw (sort-map xs) (insert-map x (sort xs))

  module _ (trans : (x y z : A) → before y x ≡ false → before z y ≡ false → before z x ≡ false)
      (asym : (x y : A) → before x y ≡ true → before y x ≡ false) where
    insert-All :
        (x z : A) (xs : List A)
        → before x z ≡ false
        → All (λ y. before y z ≡ false) xs
        → All (λ y. before y z ≡ false) (insert x xs)
    unfolding insert
    insert-All x z [] h a = (h, tt)
    insert-All x z (y ∷ ys) h a = elim (Bool-cases (before y x)) [
      | inl e ↦ rw e (a.0, insert-All x z ys h a.1)
      | inr e ↦ rw e (h, a)
    ]

    insert-IsSorted : (x : A) (xs : List A) → IsSorted xs → IsSorted (insert x xs)
    unfolding insert
    insert-IsSorted x [] s = (tt, tt)
    insert-IsSorted x (y ∷ ys) s = elim (Bool-cases (before y x)) [
      | inl e ↦ rw e (insert-All x y ys (asym y x e) s.0, insert-IsSorted x ys s.1)
      | inr e ↦ rw e (
        (
          e,
          All-map (λ z. before z y ≡ false) (λ z. before z x ≡ false) ys (λ z. trans x y z e) s.0,
        ),
        s,
      )
    ]

    pub sort-IsSorted : (xs : List A) → IsSorted (sort xs)
    unfolding sort
    sort-IsSorted [] = tt
    sort-IsSorted (x ∷ xs) = insert-IsSorted x (sort xs) (sort-IsSorted xs)
