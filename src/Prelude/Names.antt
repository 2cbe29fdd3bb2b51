-- ===== src/Prelude/Names.antt =====
-- Lists of names that do not repeat: `new Set(names)`, and counting its members.
use Prim.Native.Nat.{ℕ, suc, ◌+◌, ◌≤◌}
use Prim.Native.String.{String}
use mathlib.Core.Path.{◌≡◌, refl}
use mathlib.Core.Logic.{inl, inr}
use mathlib.Core.Bool.{Bool, true, false, not}
use mathlib.Core.List.{List, [], ◌∷◌}
use native.Mathlib.Omega.{arith}
use tmx_assessment.Prelude.Tests.{if◌then◌else◌, Bool-cases}
use tmx_assessment.Prelude.Lists.{length, any, filter, All, count_if, All-map, All-both}
use tmx_assessment.Prelude.Counting.{any_count, count_any}
use tmx_assessment.Prelude.Text.{◌===◌, eq_iff, eq_refl}

-- The members of a `Set` made of a list.
unfoldable pub members : List String → List String
members [] = []
members (x ∷ xs) = let rest = members xs in if any (λ y. y === x) xs then rest else x ∷ rest

abbrev pub occurs : String → List String → Bool
occurs i xs = any (λ x. x === i) xs

abbrev pub times : String → List String → ℕ
times i xs = count_if (λ x. x === i) xs

pub length-members : (xs : List String) → length (members xs) ≤ length xs
unfolding members
length-members [] = omega arith
length-members (x ∷ xs) = ground (arith, length-members xs)

pub members_same : (xs : List String) → ((i : String) → times i xs ≤ 1) → members xs ≡ xs
unfolding members
members_same [] h = refl
members_same (x ∷ xs) h =
    let once : times x xs ≡ 0 = ground (arith, h x, eq_refl x) in
    rw (count_any (λ y. y === x) xs once, members_same xs (λ i. ground (arith, h i))) refl

-- A set as large as its list was made of a list without repetition.
pub members_once :
    (xs : List String) → length (members xs) ≡ length xs → (i : String) → times i xs ≤ 1
unfolding members
members_once [] h i = omega arith
members_once (x ∷ xs) h i =
    let later : length (members xs) ≡ length xs → times i xs ≤ 1 = λ e. members_once xs e i in
    let here : x ≡ i → occurs x xs ≡ false → times i xs ≡ 0 =
      λ e f. rw (← e) (any_count (λ y. y === x) xs f) in
    ground (arith, eq_iff x i, length-members xs, later, here)

-- Without one name.
abbrev without : String → List String → List String
without i xs = filter (λ x. not (x === i)) xs

length-without : (i : String) (xs : List String) → length (without i xs) + times i xs ≡ length xs
length-without i [] = refl
length-without i (x ∷ xs) = ground (arith, length-without i xs)

occurs-without :
    (i j : String) (xs : List String)
    → (j === i) ≡ false
    → occurs j xs ≡ true
    → occurs j (without i xs) ≡ true
occurs-without i j [] n h = h
occurs-without i j (x ∷ xs) n h =
    ground (arith, eq_iff x i, eq_iff x j, eq_iff j i, occurs-without i j xs n)

occurs-times : (i : String) (xs : List String) → occurs i xs ≡ true → 1 ≤ times i xs
occurs-times i [] h = ground arith
occurs-times i (x ∷ xs) h = ground (arith, occurs-times i xs)

absent_All : (i : String) (xs : List String) → times i xs ≡ 0 → All (λ z. (z === i) ≡ false) xs
absent_All i [] h = tt
absent_All i (x ∷ xs) h = (ground arith, absent_All i xs (ground arith))

once_more :
    (i : String) (xs : List String)
    → ((j : String) → times j xs ≤ 1)
    → times i xs ≡ 0
    → (j : String) → times j (i ∷ xs) ≤ 1
once_more i xs h n j =
    let here : i ≡ j → times j xs ≡ 0 = λ e. rw (← e) n in ground (arith, eq_iff i j, h j, here)

-- Distinct names that all occur among others are no more than those.
pub pigeonhole :
    (xs ys : List String)
    → ((i : String) → times i xs ≤ 1)
    → All (λ x. occurs x ys ≡ true) xs
    → length xs ≤ length ys
pigeonhole [] ys h a = omega arith
pigeonhole (x ∷ xs) ys h a =
    let once : times x xs ≡ 0 = ground (arith, h x, eq_refl x) in
    let others : All (λ z. (z === x) ≡ false) xs = absent_All x xs once in
    omega (
      arith,
      length-without x ys,
      occurs-times x ys a.0,
      pigeonhole xs (without x ys) (λ i. ground (arith, h i))
          (All-map (λ z. ((z === x) ≡ false) × (occurs z ys ≡ true))
            (λ z. occurs z (without x ys) ≡ true) xs (λ z (n, o). occurs-without x z ys n o)
            (All-both (λ z. (z === x) ≡ false) (λ z. occurs z ys ≡ true) xs others a.1)),
    )

-- When they are as many, each of those others is among them.
pub pigeonhole_onto :
    (xs ys : List String) (i : String)
    → ((j : String) → times j xs ≤ 1)
    → All (λ x. occurs x ys ≡ true) xs
    → length xs ≡ length ys
    → occurs i ys ≡ true
    → occurs i xs ≡ true
pigeonhole_onto xs ys i h a e o = elim (Bool-cases (occurs i xs)) [
  | inl f ↦ f
  | inr f ↦
      let more : suc (length xs) ≤ length ys =
        pigeonhole (i ∷ xs) ys (once_more i xs h (any_count (λ x. x === i) xs f)) (o, a) in
      ground (arith, more)
]

pub occurs_counted : (i : String) (xs : List String) → 1 ≤ times i xs → occurs i xs ≡ true
occurs_counted i [] h = ground arith
occurs_counted i (x ∷ xs) h = ground (arith, occurs_counted i xs)

-- What is in the first list as often as it is in the second occurs there.
occur_All :
    (xs ys : List String)
    → ((i : String) → times i xs ≤ times i ys)
    → All (λ x. occurs x ys ≡ true) xs
occur_All [] ys h = tt
occur_All (x ∷ xs) ys h = (
  occurs_counted x ys (ground (arith, h x, eq_refl x)),
  occur_All xs ys (λ i. ground (arith, h i)),
)

pub same_times-length :
    (xs ys : List String)
    → ((i : String) → times i ys ≤ 1)
    → ((i : String) → times i xs ≡ times i ys)
    → (length xs ≡ length ys) × All (λ x. occurs x ys ≡ true) xs
same_times-length xs ys u h =
    let there = occur_All xs ys (λ i. omega (arith, h i)) in
    let back = occur_All ys xs (λ i. omega (arith, h i)) in
    let up = pigeonhole xs ys (λ i. omega (arith, u i, h i)) there in
    let down = pigeonhole ys xs u back in (omega (arith, up, down), there)

-- Two lists without repetition, with the same names, hold each as often.
pub times_same :
    (xs ys : List String) (i : String)
    → times i xs ≤ 1
    → times i ys ≤ 1
    → (occurs i xs ≡ true → occurs i ys ≡ true)
    → (occurs i ys ≡ true → occurs i xs ≡ true)
    → times i xs ≡ times i ys
times_same xs ys i u v h k =
    ground (arith, occurs-times i xs, occurs-times i ys, occurs_counted i xs, occurs_counted i ys)

pub All-occurs :
    (xs ys : List String) (i : String)
    → All (λ x. occurs x ys ≡ true) xs
    → occurs i xs ≡ true
    → occurs i ys ≡ true
All-occurs [] ys i a h = ground arith
All-occurs (x ∷ xs) ys i a h = elim (Bool-cases (x === i)) [
  | inl e ↦ rw (← (eq_iff x i).0 e) a.0
  | inr e ↦ All-occurs xs ys i a.1 (ground arith)
]
