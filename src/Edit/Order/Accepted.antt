-- ===== src/Edit/Order/Accepted.antt =====
-- Proofs about `assertSameIds` of questions.service.ts: which lists of ids it accepts, and that the rows are
-- read in the order of a list that was accepted.
use tmx_assessment.Prelude.{
  refl, ℕ, ◌≤◌, ◌≡◌, sym, ap, ◌∙◌, arith, String, Bool, true, List, [], ◌∷◌, map, length,
  length-map, length_perm, all, All, count_if, ◌↔◌,
}
use tmx_assessment.Prelude.Text.{◌===◌, eq_refl}
use tmx_assessment.Prelude.Sort.{sort, sort-IsSorted, sort-All, sort-perm}
use tmx_assessment.Prelude.Counting.{count_if-map, count_if-sort, counted_any, count_if_ext}
use tmx_assessment.Prelude.Names.{
  members, occurs, times, members_same, members_once, pigeonhole_onto, same_times-length,
  times_same, All-occurs,
}
use tmx_assessment.Edit.Store.{is_reordering}
use tmx_assessment.Edit.Sections.{reorder_from}
use tmx_assessment.Edit.Order.{
  before, IsPlaced, place, place_id, place_occurs, reorder_from-map, rising_placed, sorted-IsRising,
}

reordering_parts :
    (items ids : List String)
    → is_reordering items ids ≡ true
    → (length ids ≡ length (members items))
      × (length (members ids) ≡ length ids)
      × (all (λ id. occurs id (members items)) ids ≡ true)
unfolding is_reordering
reordering_parts items ids h = ground arith

all-All : (p : String → Bool) (xs : List String) → all p xs ≡ true → All (λ x. p x ≡ true) xs
all-All p [] h = tt
all-All p (x ∷ xs) h = (ground arith, all-All p xs (ground arith))

All-all : (p : String → Bool) (xs : List String) → All (λ x. p x ≡ true) xs → all p xs ≡ true
All-all p [] a = refl
All-all p (x ∷ xs) a = ground (arith, a.0, All-all p xs a.1)

-- A list is accepted exactly when it has each id of the rows as often as the rows do.
pub is_reordering_iff :
    (items ids : List String)
    → ((i : String) → times i items ≤ 1)
    → (is_reordering items ids ≡ true) ↔ ((i : String) → times i ids ≡ times i items)
unfolding is_reordering
is_reordering_iff items ids u = (
  (λ h i.
      let parts = reordering_parts items ids h in
      let same = members_same items u in
      let there : All (λ x. occurs x items ≡ true) ids =
        rw (← same) (all-All (λ x. occurs x (members items)) ids parts.2) in
      let once = members_once ids parts.1 in
      times_same ids items i (once i) (u i) (All-occurs ids items i there)
        (pigeonhole_onto ids items i once there (parts.0 ∙ ap length same))),
  (λ h.
      let parts = same_times-length ids items u h in
      let once : (i : String) → times i ids ≤ 1 = λ i. omega (arith, h i, u i) in
      rw (members_same items u, members_same ids once)
        (ground (arith, parts.0, All-all (λ x. occurs x items) ids parts.1))),
)

module _ {A : Type 0} (id : A → String) (order : A → ℕ) (with_order : ℕ → A → A)
    (same_id : (k : ℕ) (x : A) → id (with_order k x) ≡ id x)
    (has_order : (k : ℕ) (x : A) → order (with_order k x) ≡ k) where
  -- Each id of the rows is in a list that was accepted, which is as long.
  module _ (xs : List A) (ids : List String)
      (unique : (i : String) → count_if (λ x. id x === i) xs ≤ 1)
      (accepted : is_reordering (map id (sort (before order) xs)) ids ≡ true) where
    sorted_once : (i : String) → times i (map id (sort (before order) xs)) ≤ 1
    sorted_once i =
        rw
          (
            count_if-map (λ j. j === i) id (sort (before order) xs),
            count_if-sort (before order) (λ x. id x === i) xs,
          )
          (unique i)

    same_members : members (map id (sort (before order) xs)) ≡ map id (sort (before order) xs)
    same_members = members_same (map id (sort (before order) xs)) sorted_once

    accepted_parts :
        (length ids ≡ length xs)
        × ((i : String) → times i ids ≤ 1)
        × All (λ i. occurs i (map id (sort (before order) xs)) ≡ true) ids
    accepted_parts =
        let parts = reordering_parts (map id (sort (before order) xs)) ids accepted in
        (
          parts.0
              ∙ ap length same_members
              ∙ length-map (sort (before order) xs) id
              ∙ length_perm (sort-perm (before order) xs),
          members_once ids parts.1,
          rw (← same_members)
              (all-All (λ i. occurs i (members (map id (sort (before order) xs)))) ids parts.2),
        )

    present : (x : A) → 1 ≤ count_if (λ y. id y === id x) xs → occurs (id x) ids ≡ true
    present x h =
        pigeonhole_onto ids (map id (sort (before order) xs)) (id x) accepted_parts.1
          accepted_parts.2
          (accepted_parts.0
            ∙ sym (length_perm (sort-perm (before order) xs))
            ∙ sym (length-map (sort (before order) xs) id))
          (counted_any (λ i. i === id x) (map id (sort (before order) xs))
            (rw
              (
                count_if-map (λ i. i === id x) id (sort (before order) xs),
                count_if-sort (before order) (λ y. id y === id x) xs,
              )
              h))

    present_All :
        (ys : List A)
        → ((i : String) → count_if (λ y. id y === i) ys ≤ count_if (λ y. id y === i) xs)
        → All (λ y. occurs (id y) ids ≡ true) ys
    present_All [] h = tt
    present_All (y ∷ ys) h = (
      present y (ground (arith, h (id y), eq_refl (id y))),
      present_All ys (λ i. ground (arith, h i)),
    )

    placed_All :
        (ys : List A)
        → All (λ y. occurs (id y) ids ≡ true) ys
        → All (IsPlaced id order 0 ids) (map (place id order with_order same_id has_order 0 ids) ys)
    placed_All [] a = tt
    placed_All (y ∷ ys) a =
        (place_occurs id order with_order same_id has_order 0 ids y a.0, placed_All ys a.1)

    placed_once :
        (i : String)
        → count_if (λ y. id y === i) (map (place id order with_order same_id has_order 0 ids) xs)
          ≤ 1
    placed_once i =
        rw
          (
            count_if-map (λ y. id y === i) (place id order with_order same_id has_order 0 ids) xs,
            count_if_ext (λ y. id (place id order with_order same_id has_order 0 ids y) === i)
                (λ y. id y === i) xs
                (λ y. rw (place_id id order with_order same_id has_order 0 ids y) refl),
          )
          (unique i)

    -- The rows of an accepted reordering are read in the order of its ids.
    pub reordered : map id (sort (before order) (reorder_from id with_order 0 ids xs)) ≡ ids
    reordered =
        let ys : List A = map (place id order with_order same_id has_order 0 ids) xs in
        let placed =
          sort-All (before order) (IsPlaced id order 0 ids) ys
            (placed_All xs (present_All xs (λ i. omega arith))) in
        rw (reorder_from-map id order with_order same_id has_order 0 ids xs) (
          rising_placed id order 0 ids (sort (before order) ys)
            (accepted_parts.0
              ∙ sym (length-map xs (place id order with_order same_id has_order 0 ids))
              ∙ sym (length_perm (sort-perm (before order) ys)))
            placed
            (sorted-IsRising id order 0 ids (sort (before order) ys)
              (λ i. rw (count_if-sort (before order) (λ y. id y === i) ys) (placed_once i)) placed
              (sort-IsSorted (before order) (λ x y z e f. ground arith) (λ x y e. ground arith)
                ys)))
