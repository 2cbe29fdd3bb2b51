-- ===== src/Edit/Settings/Publishing.antt =====
-- Proofs about the publishing of a test by `update` of assessments.service.ts.
use Prim.Native.String.{◌++◌ as append}
use tmx_assessment.Prelude.{
  ◌≡◌, refl, ap, ◌∙◌, arith, String, true, false, ◌&&◌, not, ltb, ◌⊎◌, inl, inr, Bool-cases, some,
  List, [], ◌∷◌, ◌++◌, map, find?, length,
}
use tmx_assessment.Prelude.Text.{◌===◌}
use tmx_assessment.Http.{HttpError, bad_request, conflict, ok, err}
use tmx_assessment.Schema.{ScoringMethod, QuestionType, QuestionRow, AssessmentRow}
use tmx_assessment.Canonical.Questions.{normalize_question}
use tmx_assessment.Canonical.Questions.Problems.{is_type_for, question_problems}
use tmx_assessment.Canonical.Mapper.{
  stored_problems, publish_problems, publish_problems_from, none_yet, question_name, audio_problems,
  to_canonical_question,
}
use tmx_assessment.Take.Store.{update_many}
use tmx_assessment.Edit.Store.{Library, Runtime, content, find_test, with_content}
use tmx_assessment.Edit.Sections.{or_kept}
use tmx_assessment.Edit.Settings.{
  AssessmentPatch, same_method, is_published, publishes, misfits, misfit_message, slug_taken,
  is_slug_used, patched_test, update_test,
}

only_method :
    (m n : ScoringMethod) (t : QuestionType)
    → is_type_for m t ≡ true
    → is_type_for n t ≡ true
    → m ≡ n
unfolding is_type_for
only_method m n t h k = ground arith

problem_free-type :
    (q : QuestionRow) (m : ScoringMethod) → stored_problems q m ≡ [] → is_type_for m q.type ≡ true
unfolding stored_problems question_problems normalize_question to_canonical_question
problem_free-type q m h = ground arith

none_left : (xs : List String) → ltb 0 (length xs) ≡ false → xs ≡ []
none_left [] h = refl
none_left (x ∷ xs) h = ground arith

nil_left : {A : Type 0} (xs ys : List A) → xs ++ ys ≡ [] → xs ≡ []
nil_left [] ys h = refl
nil_left (x ∷ xs) ys h = ground arith

map_nil : {A B : Type 0} (f : A → B) (xs : List A) → map f xs ≡ [] → xs ≡ []
map_nil f [] h = refl
map_nil f (x ∷ xs) h = ground arith

fits :
    (m : ScoringMethod) (q : QuestionRow) (qs : List QuestionRow)
    → ltb 0 (length (misfits m (q ∷ qs))) ≡ false
    → is_type_for m q.type ≡ true
fits m q qs h = ground arith

first_ready :
    (n : ScoringMethod) (q : QuestionRow) (qs : List QuestionRow)
    → publish_problems_from n 0 (q ∷ qs) ≡ []
    → stored_problems q n ≡ []
unfolding publish_problems_from
first_ready n q qs h =
    let sentence : String → String =
      λ problem. append (question_name 0 q.ref) (append ": " problem) in
    map_nil sentence (stored_problems q n) (
      nil_left (map sentence (stored_problems q n)) (audio_problems (question_name 0 q.ref) q) (
        nil_left (map sentence (stored_problems q n) ++ audio_problems (question_name 0 q.ref) q)
          (publish_problems_from n 1 qs) h))

questions_method :
    (m n : ScoringMethod) (qs : List QuestionRow)
    → none_yet qs ++ publish_problems_from n 0 qs ≡ []
    → ltb 0 (length (misfits m qs)) ≡ false
    → m ≡ n
unfolding publish_problems_from
questions_method m n [] h k = ground arith
questions_method m n (q ∷ qs) h k =
    only_method m n q.type (fits m q qs k) (problem_free-type q n (first_ready n q qs h))

same_problems :
    {F : Type 0} (a b : AssessmentRow F)
    → b.questions ≡ a.questions
    → b.scoring_method ≡ a.scoring_method
    → publish_problems b ≡ publish_problems a
unfolding publish_problems
same_problems a b e f = rw (e, f) refl

same_method_self : (m n : ScoringMethod) → m ≡ n → same_method m n ≡ true
same_method_self m n e = ground arith

module _ {F : Type 0} where
  -- A test without problems keeps its method when no question misfits the new one.
  ready_method :
      (a : AssessmentRow F) (m : ScoringMethod)
      → publish_problems a ≡ []
      → (not (same_method m a.scoring_method) && ltb 0 (length (misfits m a.questions))) ≡ false
      → m ≡ a.scoring_method
  unfolding publish_problems
  ready_method a m h k = elim (Bool-cases (same_method m a.scoring_method)) [
    | inl e ↦ ground arith
    | inr e ↦ questions_method m a.scoring_method a.questions h (ground arith)
  ]

  found_first :
      (id : String) (t a : AssessmentRow F) (ts : List (AssessmentRow F))
      → (t.id === id) ≡ true
      → find? (λ t. t.id === id) (t ∷ ts) ≡ some a
      → t ≡ a
  found_first id t a ts e h = ground arith

  found_later :
      (id : String) (t a : AssessmentRow F) (ts : List (AssessmentRow F))
      → (t.id === id) ≡ false
      → find? (λ t. t.id === id) (t ∷ ts) ≡ some a
      → find? (λ t. t.id === id) ts ≡ some a
  found_later id t a ts e h = ground arith

  patched_found :
      (id : String) (patch : AssessmentPatch) (tests : List (AssessmentRow F)) (a : AssessmentRow F)
      → find? (λ t. t.id === id) tests ≡ some a
      → find? (λ t. t.id === id) (update_many (λ t. t.id === id) (patched_test patch) tests)
        ≡ some (patched_test patch a)
  unfolding patched_test
  patched_found id patch [] a h = ground arith
  patched_found id patch (t ∷ ts) a h = elim (Bool-cases (t.id === id)) [
    | inl e ↦ rw (e, e) (ap (λ b. some (patched_test patch b)) (found_first id t a ts e h))
    | inr e ↦ rw (e, e) (patched_found id patch ts a (found_later id t a ts e h))
  ]

  -- The content of the test after an update that keeps its method.
  updated_problems :
      (id : String) (patch : AssessmentPatch) (db d : Library F) (a : AssessmentRow F)
      → d.questions ≡ db.questions
      → d.media ≡ db.media
      → or_kept a.scoring_method patch.scoring_method ≡ a.scoring_method
      → publish_problems (with_content d (patched_test patch a))
        ≡ publish_problems (with_content db a)
  unfolding with_content patched_test
  updated_problems id patch db d a e f m =
      same_problems (with_content db a) (with_content d (patched_test patch a)) (rw (e, f) refl) m

  module _ (rt : Runtime) (id : String) (patch : AssessmentPatch) (db : Library F)
      (a : AssessmentRow F) (found : find_test id db ≡ some a)
      (publish : publishes patch.status ≡ true) (was_not : is_published a.status ≡ false) where
    -- Publishing a test either is refused, and writes nothing, or the test that is stored from then on,
    -- with the scoring method that the same request gave, has no problems.
    pub update_test_ready :
        ((c : AssessmentRow F) × (d : Library F) × (update_test rt id patch db ≡ (ok c, d))
          × (publish_problems c ≡ []))
        ⊎ ((e : HttpError) × (update_test rt id patch db ≡ (err e, db)))
    unfolding update_test content
    update_test_ready =
        let c : AssessmentRow F = with_content db a in
        let method : ScoringMethod = or_kept a.scoring_method patch.scoring_method in
        let d : Library F = record db {
          tests = update_many (λ t. t.id === id) (patched_test patch) db.tests;
        } in
        elim (Bool-cases (
          not (same_method method a.scoring_method)
          && ltb 0 (length (misfits method c.questions)))) [
            | inl e ↦ inr (
              bad_request
                  (misfit_message rt.unicode.lower method (misfits method c.questions) ∷ []),
              rw (found, e) refl,
            )
            | inr e ↦ elim (Bool-cases (ltb 0 (length (publish_problems c)))) [
              | inl f ↦
                  inr (bad_request (publish_problems c), rw (found, e, publish, was_not, f) refl)
              | inr f ↦ elim (Bool-cases (is_slug_used id patch.slug db)) [
                | inl g ↦ inr (
                  conflict (slug_taken (or_kept a.slug patch.slug)),
                  rw (found, e, publish, was_not, f, g) refl,
                )
                | inr g ↦
                    let ready : publish_problems c ≡ [] = none_left (publish_problems c) f in
                    inl (
                      with_content d (patched_test patch a),
                      d,
                      rw (found, e, publish, was_not, f, g, patched_found id patch db.tests a found)
                          refl,
                      updated_problems id patch db d a refl refl (ready_method c method ready e)
                          ∙ ready,
                    )
              ]
            ]
          ]
