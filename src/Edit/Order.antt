-- ===== src/Edit/Order.antt =====
-- Proofs about `assertSameIds` and the reordering of questions.service.ts, for sections and questions alike:
-- a list of ids that is accepted is the order in which the rows are read from then on.
pub mod Accepted
pub mod Requests
use tmx_assessment.Prelude.{
  ℕ, zero, suc, ◌+◌, ◌≤◌, ◌<◌, ◌≡◌, refl, sym, ap, ◌∙◌, arith, String, Bool, true, false, ◌&&◌, not,
  ltb, ◌==◌, ==_iff, Option, some, List, [], ◌∷◌, map, length, length-map, get_elem?, any, all, All,
  All-map, All-both, count_if, if◌then◌else◌, inl, inr, Bool-cases,
}
use mathlib.Core.List.{map-map, map-id}
use tmx_assessment.Prelude.Text.{◌===◌, eq_iff, eq_refl}
use tmx_assessment.Prelude.Sort.{sort, IsSorted, sort-IsSorted, sort-All, sort-perm}
use tmx_assessment.Prelude.{length_perm}
use tmx_assessment.Prelude.Counting.{count_if-map, count_if-sort, counted_any, count_if_ext}
use tmx_assessment.Prelude.Names.{
  members, occurs, times, members_same, members_once, pigeonhole_onto,
}
use tmx_assessment.Edit.Store.{is_reordering}
use tmx_assessment.Edit.Sections.{reorder_from}

some_inj : {x y : String} → some x ≡ some y → x ≡ y
some_inj e = ground arith

abbrev pub before : {A : Type 0} → (A → ℕ) → A → A → Bool
before order x y = ltb (order x) (order y)

module _ {A : Type 0} (id : A → String) (order : A → ℕ) where
  -- The order of a row points at its id in the list, which starts at k.
  abbrev pub IsPlaced : ℕ → List String → A → Type 0
  IsPlaced k ids y = (j : ℕ) × (order y ≡ k + j) × (get_elem? ids j ≡ some (id y))

  abbrev pub IsRising : List A → Type 0
  IsRising [] = Unit
  IsRising (y ∷ ys) = All (λ z. order y < order z) ys × IsRising ys

  rising_below :
      (m : ℕ) (y : A) (ys : List A)
      → All (λ z. order z < m) (y ∷ ys)
      → IsRising (y ∷ ys)
      → order y + length (y ∷ ys) ≤ m
  rising_below m y [] a r = omega (arith, a.0)
  rising_below m y (z ∷ zs) a r = omega (arith, r.0.0, rising_below m z zs a.1 r.1)

  placed_below :
      (k : ℕ) (ids : List String) (j : ℕ) (i : String) → get_elem? ids j ≡ some i → j < length ids
  placed_below k [] j i e = ground arith
  placed_below k (x ∷ xs) zero i e = omega arith
  placed_below k (x ∷ xs) (suc j) i e = omega (arith, placed_below k xs j i e)

  placed_next :
      (k : ℕ) (i : String) (ids : List String) (z : A)
      → k < order z
      → IsPlaced k (i ∷ ids) z
      → IsPlaced (suc k) ids z
  placed_next k i ids z h (zero, e, g) = ground arith
  placed_next k i ids z h (suc j, e, g) = (j, omega (arith, e), g)

  placed_first :
      (k : ℕ) (i : String) (ids : List String) (y : A)
      → order y ≤ k
      → IsPlaced k (i ∷ ids) y
      → (order y ≡ k) × (id y ≡ i)
  placed_first k i ids y h (zero, e, g) = ground arith
  placed_first k i ids y h (suc j, e, g) = ground arith

  -- Rows that rise, and all have their place in a list as long, are that list.
  pub rising_placed :
      (k : ℕ) (ids : List String) (ys : List A)
      → length ids ≡ length ys
      → All (IsPlaced k ids) ys
      → IsRising ys
      → map id ys ≡ ids
  rising_placed k [] [] e a r = refl
  rising_placed k [] (y ∷ ys) e a r = ground arith
  rising_placed k (i ∷ is) [] e a r = ground arith
  rising_placed k (i ∷ is) (y ∷ ys) e a r =
      let low =
        rising_below (k + length (i ∷ is)) y ys
          (All-map (IsPlaced k (i ∷ is)) (λ z. order z < k + length (i ∷ is)) (y ∷ ys)
            (λ z (j, f, g). omega (arith, f, placed_below k (i ∷ is) j (id z) g)) a)
          r in
      let first = placed_first k i is y (omega (arith, low, e)) a.0 in
      let rest =
        rising_placed (suc k) is ys (omega (arith, e))
          (All-map (λ z. (order y < order z) × IsPlaced k (i ∷ is) z) (IsPlaced (suc k) is) ys
            (λ z (f, g). placed_next k i is z (omega (arith, f, first.0)) g)
            (All-both (λ z. order y < order z) (IsPlaced k (i ∷ is)) ys r.0 a.1))
          r.1 in
      rw (first.1, rest) refl

  -- Sorted rows with distinct ids that have their places rise.
  placed_apart :
      (k : ℕ) (ids : List String) (y z : A)
      → IsPlaced k ids y
      → IsPlaced k ids z
      → before order z y ≡ false
      → (id z === id y) ≡ false
      → order y < order z
  placed_apart k ids y z (i, e, g) (j, f, h) s n =
      let same : i ≡ j → id z ≡ id y = λ q. some_inj (sym h ∙ ap (get_elem? ids) (sym q) ∙ g) in
      ground (arith, same, eq_iff (id z) (id y))

  absent_ids :
      (i : String) (ys : List A)
      → count_if (λ y. id y === i) ys ≡ 0
      → All (λ z. (id z === i) ≡ false) ys
  absent_ids i [] h = tt
  absent_ids i (y ∷ ys) h = (ground arith, absent_ids i ys (ground arith))

  pub sorted-IsRising :
      (k : ℕ) (ids : List String) (ys : List A)
      → ((i : String) → count_if (λ y. id y === i) ys ≤ 1)
      → All (IsPlaced k ids) ys
      → IsSorted (before order) ys
      → IsRising ys
  sorted-IsRising k ids [] u a s = tt
  sorted-IsRising k ids (y ∷ ys) u a s = (
    All-map (λ z. ((id z === id y) ≡ false) × ((before order z y ≡ false) × IsPlaced k ids z))
        (λ z. order y < order z) ys (λ z (n, (b, p)). placed_apart k ids y z a.0 p b n)
        (All-both (λ z. (id z === id y) ≡ false)
          (λ z. (before order z y ≡ false) × IsPlaced k ids z) ys
          (absent_ids (id y) ys (ground (arith, u (id y), eq_refl (id y))))
          (All-both (λ z. before order z y ≡ false) (IsPlaced k ids) ys s.0 a.1)),
    sorted-IsRising k ids ys (λ i. ground (arith, u i)) a.1 s.1,
  )

  module _ (with_order : ℕ → A → A) (same_id : (k : ℕ) (x : A) → id (with_order k x) ≡ id x)
      (has_order : (k : ℕ) (x : A) → order (with_order k x) ≡ k) where
    -- What a reordering makes of one row.
    abbrev pub place : ℕ → List String → A → A
    place k [] x = x
    place k (i ∷ is) x = place (suc k) is (if id x === i then with_order k x else x)

    pub place_id : (k : ℕ) (is : List String) (x : A) → id (place k is x) ≡ id x
    place_id k [] x = refl
    place_id k (i ∷ is) x = elim (Bool-cases (id x === i)) [
      | inl e ↦ rw e (place_id (suc k) is (with_order k x) ∙ same_id k x)
      | inr e ↦ rw e (place_id (suc k) is x)
    ]

    pub reorder_from-map :
        (k : ℕ) (is : List String) (xs : List A)
        → reorder_from id with_order k is xs ≡ map (place k is) xs
    unfolding reorder_from
    reorder_from-map k [] xs = sym (map-id xs)
    reorder_from-map k (i ∷ is) xs =
        reorder_from-map (suc k) is (map (λ x. if id x === i then with_order k x else x) xs)
        ∙ map-map (place (suc k) is) (λ x. if id x === i then with_order k x else x) xs

    place_absent : (k : ℕ) (is : List String) (x : A) → occurs (id x) is ≡ false → place k is x ≡ x
    place_absent k [] x h = refl
    place_absent k (i ∷ is) x h = elim (Bool-cases (id x === i)) [
      | inl e ↦ ground (arith, eq_iff (id x) i, eq_iff i (id x))
      | inr e ↦ rw e (place_absent (suc k) is x (ground arith))
    ]

    later :
        (k : ℕ) (i : String) (is : List String) (x : A)
        → IsPlaced (suc k) is (place (suc k) is x)
        → IsPlaced k (i ∷ is) (place (suc k) is x)
    later k i is x (j, e, g) = (suc j, omega (arith, e), g)

    last_place :
        (k : ℕ) (i : String) (is : List String) (x : A)
        → occurs (id x) is ≡ false
        → (i === id x) ≡ true
        → place k (i ∷ is) x ≡ with_order k x
    last_place k i is x h e =
        let same : (id x === i) ≡ true = ground (arith, eq_iff (id x) i, eq_iff i (id x)) in
        rw same (place_absent (suc k) is (with_order k x) (rw (same_id k x) h))

    last_placed :
        (k : ℕ) (i : String) (is : List String) (x : A)
        → occurs (id x) is ≡ false
        → (i === id x) ≡ true
        → (order (place k (i ∷ is) x) ≡ k + 0) × (some i ≡ some (id (place k (i ∷ is) x)))
    last_placed k i is x h e =
        rw (last_place k i is x h e, same_id k x)
          (ground (arith, has_order k x), ground (arith, eq_iff i (id x)))

    -- A row whose id is in the list gets its place in it.
    pub place_occurs :
        (k : ℕ) (is : List String) (x : A) → occurs (id x) is ≡ true → IsPlaced k is (place k is x)
    place_occurs k [] x h = ground arith
    place_occurs k (i ∷ is) x h =
        let moved : A = if id x === i then with_order k x else x in
        let kept : id moved ≡ id x = (elim (Bool-cases (id x === i)) [
          | inl e ↦ rw e (same_id k x)
          | inr e ↦ rw e refl
        ]) in
        elim (Bool-cases (occurs (id x) is)) [
          | inl e ↦ later k i is moved (place_occurs (suc k) is moved (rw kept e))
          | inr e ↦ let last = last_placed k i is x e (ground arith) in (0, last.0, last.1)
        ]
