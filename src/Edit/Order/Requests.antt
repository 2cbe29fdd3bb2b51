-- ===== src/Edit/Order/Requests.antt =====
-- The requests of questions.service.ts that reorder questions.
use tmx_assessment.Prelude.{
  ℕ, suc, ◌≤◌, ◌≡◌, refl, sym, ap, ◌∙◌, arith, String, Bool, true, false, ◌⊎◌, inl, inr, some, List,
  [], ◌∷◌, map, filter, count_if, Bool-cases,
}
use mathlib.Core.List.{map-map}
use tmx_assessment.Prelude.Text.{◌===◌}
use tmx_assessment.Prelude.Sort.{sort}
use tmx_assessment.Prelude.Counting.{count_if-map, count_if-sort, count_if-filter_le}
use tmx_assessment.Prelude.Names.{times}
use tmx_assessment.Http.{bad_request, ok, err}
use tmx_assessment.Schema.{QuestionRow, AssessmentRow}
use tmx_assessment.Take.Store.{update_many}
use tmx_assessment.Edit.Store.{
  Library, content, find_test, with_content, load_question, is_question_of, question_before,
  is_reordering,
}
use tmx_assessment.Edit.Sections.{reorder_from}
use tmx_assessment.Edit.Questions.{question_id, with_order, reorder_questions}
use tmx_assessment.Edit.Order.Accepted.{is_reordering_iff, reordered}

module _ {A : Type 0} (id : A → String) (with_order : ℕ → A → A) where
  filter_update :
      (p w : A → Bool) (f : A → A) (xs : List A)
      → ((x : A) → p (f x) ≡ p x)
      → filter p (update_many w f xs) ≡ update_many w f (filter p xs)
  filter_update p w f [] h = refl
  filter_update p w f (x ∷ xs) h = elim (Bool-cases (w x)) [
    | inl e ↦ elim (Bool-cases (p x)) [
      | inl g ↦ rw (e, h x, g, e, filter_update p w f xs h) refl
      | inr g ↦ rw (e, h x, g, filter_update p w f xs h) refl
    ]
    | inr e ↦ elim (Bool-cases (p x)) [
      | inl g ↦ rw (e, g, e, filter_update p w f xs h) refl
      | inr g ↦ rw (e, g, filter_update p w f xs h) refl
    ]
  ]

  pub filter_reorder :
      (p : A → Bool) (k : ℕ) (is : List String) (xs : List A)
      → ((j : ℕ) (x : A) → p (with_order j x) ≡ p x)
      → filter p (reorder_from id with_order k is xs)
        ≡ reorder_from id with_order k is (filter p xs)
  unfolding reorder_from
  filter_reorder p k [] xs h = refl
  filter_reorder p k (i ∷ is) xs h =
      filter_reorder p (suc k) is (update_many (λ r. id r === i) (with_order k) xs) h
      ∙ ap (reorder_from id with_order (suc k) is)
          (filter_update p (λ r. id r === i) (with_order k) xs (h k))

abbrev pub ids_of : List QuestionRow → List String
ids_of questions = map (λ q. q.id) questions

-- The ids of a test's questions, each as often.
abbrev pub IsSameIds : List QuestionRow → List String → Type 0
IsSameIds questions ids = (i : String) → times i ids ≡ times i (ids_of questions)

true_false : true ≡ false → ⊥
true_false e = ground arith

module _ {F : Type 0} where
  pub ids_read :
      (db : Library F) (a : AssessmentRow F)
      → ids_of (with_content db a).questions
        ≡ map question_id (sort question_before (filter (is_question_of a.id) db.questions))
  unfolding with_content load_question
  ids_read db a =
      map-map (λ q. q.id) (load_question db.media)
        (sort question_before (filter (is_question_of a.id) db.questions))

  module _ (test : String) (ids : List String) (db : Library F) (a : AssessmentRow F)
      (found : find_test test db ≡ some a)
      (unique : (i : String) → count_if (λ q. question_id q === i) db.questions ≤ 1) where
    own_unique :
        (i : String)
        → count_if (λ q. question_id q === i) (filter (is_question_of a.id) db.questions) ≤ 1
    own_unique i = ground (
      arith,
      unique i,
      count_if-filter_le (λ q. question_id q === i) (is_question_of a.id) db.questions,
    )

    times_once : (i : String) → times i (ids_of (with_content db a).questions) ≤ 1
    times_once i =
        rw
          (
            ids_read db a,
            count_if-map (λ j. j === i) question_id
                (sort question_before (filter (is_question_of a.id) db.questions)),
            count_if-sort question_before (λ q. question_id q === i)
                (filter (is_question_of a.id) db.questions),
          )
          (own_unique i)

    ids_after :
        is_reordering (ids_of (with_content db a).questions) ids ≡ true
        → ids_of
            (with_content
              (record db { questions = reorder_from question_id with_order 0 ids db.questions })
              a).questions
          ≡ ids
    ids_after h =
        ids_read (record db { questions = reorder_from question_id with_order 0 ids db.questions })
          a
        ∙ ap (λ qs. map question_id (sort question_before qs))
            (filter_reorder question_id with_order (is_question_of a.id) 0 ids db.questions
              (λ j x. refl))
        ∙ reordered question_id (λ q. q.order) with_order (λ k x. refl) (λ k x. refl)
            (filter (is_question_of a.id) db.questions) ids own_unique (rw (← ids_read db a) h)

    -- A list with each id of a test's questions as often as the test has it is the order in which they
    -- are read from then on; any other list is refused, and nothing is written. Question ids are unique.
    pub reorder_questions_result :
        (IsSameIds (with_content db a).questions ids
          × ((c : AssessmentRow F) × (d : Library F) × (reorder_questions test ids db ≡ (ok c, d))
              × (ids_of c.questions ≡ ids)))
        ⊎ ((IsSameIds (with_content db a).questions ids → ⊥)
            × (reorder_questions test ids db ≡ (
              err (
                  bad_request ("Send every question id in this test once, in the new order." ∷ [])),
              db,
            )))
    unfolding reorder_questions content
    reorder_questions_result =
        elim (Bool-cases (is_reordering (ids_of (with_content db a).questions) ids)) [
          | inl e ↦ inl (
            (is_reordering_iff (ids_of (with_content db a).questions) ids times_once).0 e,
            (
              with_content
                  (record db { questions = reorder_from question_id with_order 0 ids db.questions })
                  a,
              record db { questions = reorder_from question_id with_order 0 ids db.questions },
              rw (found, e, found) refl,
              ids_after e,
            ),
          )
          | inr e ↦ inr (
            (λ h. true_false (
                sym ((is_reordering_iff (ids_of (with_content db a).questions) ids times_once).1 h)
                ∙ e)),
            rw (found, e) refl,
          )
        ]
