-- ===== src/Edit/Questions/Placed.antt =====
-- Proofs about where `createQuestion` and `duplicateQuestion` put a question.
use tmx_assessment.Prelude.{
  ℕ, ◌+◌, ◌<◌, ◌≡◌, refl, arith, String, Bool, true, false, ltb, ◌&&◌, inl, inr, Bool-cases, List,
  [], ◌∷◌, ◌++◌, map, filter, All, if◌then◌else◌,
}
use tmx_assessment.Prelude.Sort.{sort, insert_last, sort-snoc, sort-map}
use tmx_assessment.Edit.Store.{StoredQuestion, is_question_of, question_before}
use tmx_assessment.Edit.Questions.{question_id, shifted}

filter_snoc :
    {A : Type 0} (p : A → Bool) (xs : List A) (x : A)
    → p x ≡ true
    → filter p (xs ++ x ∷ []) ≡ filter p xs ++ x ∷ []
filter_snoc p [] x h = rw h refl
filter_snoc p (y ∷ ys) x h = ground (arith, filter_snoc p ys x h)

-- The questions of a test after another is inserted: it is last among those whose order is not above.
pub inserted_rows :
    (qs : List StoredQuestion) (test : String) (q : StoredQuestion)
    → is_question_of test q ≡ true
    → sort question_before (filter (is_question_of test) (qs ++ q ∷ []))
      ≡ insert_last question_before q (sort question_before (filter (is_question_of test) qs))
inserted_rows qs test q h = rw (filter_snoc (is_question_of test) qs q h) (
    sort-snoc question_before (λ x y z e f. ground arith) (λ x y z e f. ground arith)
      (filter (is_question_of test) qs) q)

-- One step of `updateMany` in `duplicateQuestion`, for a question of the test.
abbrev pub make_room : ℕ → StoredQuestion → StoredQuestion
make_room order q = if ltb order q.order then shifted q else q

pub shifted_rows :
    (qs : List StoredQuestion) (test : String) (order : ℕ)
    → filter
        (is_question_of test)
        (map (λ q. if is_question_of test q && ltb order q.order then shifted q else q) qs)
      ≡ map (make_room order) (filter (is_question_of test) qs)
shifted_rows [] test order = refl
shifted_rows (q ∷ qs) test order = elim (Bool-cases (is_question_of test q)) [
  | inl e ↦ elim (Bool-cases (ltb order q.order)) [
    | inl f ↦ rw (e, f, e, shifted_rows qs test order) refl
    | inr f ↦ rw (e, f, e, shifted_rows qs test order) refl
  ]
  | inr e ↦ rw (e, e, shifted_rows qs test order) refl
]

pub room_sorted :
    (rows : List StoredQuestion) (order : ℕ)
    → sort question_before (map (make_room order) rows)
      ≡ map (make_room order) (sort question_before rows)
room_sorted rows order = sort-map question_before (make_room order) (λ x y. ground arith) rows

-- Questions whose orders rise.
abbrev pub IsRising : List StoredQuestion → Type 0
IsRising [] = Unit
IsRising (q ∷ qs) = All (λ p. q.order < p.order) qs × IsRising qs

room_ids :
    (order : ℕ) (qs : List StoredQuestion)
    → map question_id (map (make_room order) qs) ≡ map question_id qs
room_ids order [] = refl
room_ids order (q ∷ qs) = ground (arith, room_ids order qs)

middle :
    (order : ℕ) (xs ys : List StoredQuestion) (o : StoredQuestion)
    → All (λ p. order < p.order) (xs ++ o ∷ ys)
    → order < o.order
middle order [] ys o a = a.0
middle order (x ∷ xs) ys o a = middle order xs ys o a.1

copy_first :
    (order : ℕ) (copy : StoredQuestion) (after : List StoredQuestion)
    → All (λ p. order < p.order) after
    → copy.order ≡ order + 1
    → map question_id (insert_last question_before copy (map (make_room order) after))
      ≡ copy.id ∷ map question_id after
copy_first order copy [] a e = refl
copy_first order copy (q ∷ qs) a e =
    let above : ltb order q.order ≡ true = ground (arith, a.0) in
    let below : ltb copy.order (q.order + 1) ≡ true = ground (arith, a.0) in
    rw (above, below, room_ids order qs) refl

-- A copy with the order after the original's stands right behind it.
pub placed_after :
    (before' after : List StoredQuestion) (original copy : StoredQuestion)
    → IsRising (before' ++ original ∷ after)
    → copy.order ≡ original.order + 1
    → map question_id (
        insert_last question_before copy
          (map (make_room original.order) (before' ++ original ∷ after)))
      ≡ map question_id before' ++ original.id ∷ copy.id ∷ map question_id after
placed_after [] after original copy r e =
    let here : ltb original.order original.order ≡ false = ground arith in
    let later : ltb copy.order original.order ≡ false = ground arith in
    rw (here, later, copy_first original.order copy after r.0 e) refl
placed_after (q ∷ qs) after original copy r e =
    let less : q.order < original.order = middle q.order qs after original r.0 in
    let still : ltb original.order q.order ≡ false = ground arith in
    let later : ltb copy.order q.order ≡ false = ground arith in
    rw (still, later, placed_after qs after original copy r.1 e) refl
