-- ===== src/Tests/Editing.antt =====
-- The theorems on the editing of tests, at the fixtures.
use tmx_assessment.Prelude.{
  ◌≤◌, ◌≡◌, ◌⊎◌, refl, arith, String, false, inl, inr, Bool-cases, none, some, List, [], ◌∷◌, ◌++◌,
  count_if, count_if-le-length,
}
use tmx_assessment.Prelude.Text.{◌===◌, eq_iff}
use tmx_assessment.Prelude.Dict.{values}
use tmx_assessment.Prelude.Names.{times}
use tmx_assessment.Float.Fraction.{Fraction}
use tmx_assessment.Http.{HttpError, bad_request, ok, err}
use tmx_assessment.Schema.{published, correct_answer, AssessmentRow}
use tmx_assessment.Canonical.Questions.{normalize_question}
use tmx_assessment.Canonical.Questions.Problems.{question_problems}
use tmx_assessment.Canonical.Slugs.{is_used}
use tmx_assessment.Canonical.Slugs.Digits.{numbered_inj}
use tmx_assessment.Canonical.Mapper.{QuestionLinks, publish_problems, stored_problems, section_keys}
use tmx_assessment.Canonical.Mapper.Keys.{section_keys_once}
use tmx_assessment.Edit.Store.{Library, with_content, load_question}
use tmx_assessment.Edit.Sections.{SectionEdit, create, edit_sections}
use tmx_assessment.Edit.Sections.Names.{IsTidy, is_named, has_id}
use tmx_assessment.Edit.Sections.Kept.{edit_sections-IsTidy}
use tmx_assessment.Edit.Order.Requests.{IsSameIds, ids_of, reorder_questions_result}
use tmx_assessment.Edit.Questions.{
  question_id, reorder_questions, duplicate_question, new_question, find_question,
}
use tmx_assessment.Edit.Questions.Copied.{duplicate_question_places}
use tmx_assessment.Edit.Questions.Stored.{stored_problems_new}
use tmx_assessment.Edit.Settings.{AssessmentPatch, update_test, unique_slug, slugs}
use tmx_assessment.Edit.Settings.Slug.{unique_slug_is_new}
use tmx_assessment.Edit.Settings.Publishing.{update_test_ready}
use tmx_assessment.Tests.Questions.{authored}
use tmx_assessment.Tests.Library.{
  stored_question, runtime, unicode, library, draft_test, first_section,
}

library-IsTidy : IsTidy runtime library
library-IsTidy = (
  (λ t m. count_if-le-length (is_named runtime t m) library.sections),
  (λ t. ground (arith, count_if-le-length (λ s. s.assessment_id === t) library.sections)),
  (λ i. count_if-le-length (has_id i) library.sections),
  (λ n le. ground (arith, eq_iff (runtime.row_id 0) (runtime.row_id n), numbered_inj "id" 0 n)),
)

abbrev second_section : SectionEdit Fraction
second_section = create (record { name = "Part two"; description = none; weight = none })

edit_sections-IsTidy_example : IsTidy runtime (edit_sections runtime "a1" second_section library).1
edit_sections-IsTidy_example =
    edit_sections-IsTidy runtime (numbered_inj "id") "a1" second_section library library-IsTidy

unique_questions : (i : String) → count_if (λ q. question_id q === i) library.questions ≤ 1
unique_questions i = elim (Bool-cases ("q1" === i)) [
  | inl e ↦ rw (← (eq_iff "q1" i).0 e) (omega arith)
  | inr e ↦ ground arith
]

abbrev no_links : QuestionLinks
no_links = record { section_id = none; media_id = none; media_file_name = none }

abbrev swapped : List String
swapped = "q2" ∷ "q1" ∷ []

reorder_questions_result_example :
    (IsSameIds (with_content library draft_test).questions swapped
      × ((c : AssessmentRow Fraction) × (d : Library Fraction) × (reorder_questions "a1" swapped
              library
            ≡ (ok c, d))
          × (ids_of c.questions ≡ swapped)))
    ⊎ ((IsSameIds (with_content library draft_test).questions swapped → ⊥)
        × (reorder_questions "a1" swapped library ≡ (
          err (bad_request ("Send every question id in this test once, in the new order." ∷ [])),
          library,
        )))
reorder_questions_result_example =
    reorder_questions_result "a1" swapped library draft_test refl unique_questions

duplicate_question_places_example :
    (before' after : List String) × (c : AssessmentRow Fraction) × (d : Library Fraction) × (ids_of
        (with_content library draft_test).questions
      ≡ before' ++ "q1" ∷ after)
    × (duplicate_question runtime "a1" "q1" library ≡ (ok c, d))
    × (ids_of c.questions ≡ before' ++ "q1" ∷ runtime.row_id 1 ∷ after)
unfolding find_question with_content
duplicate_question_places_example =
    duplicate_question_places runtime "q1" library draft_test
      (load_question [] (stored_question "q1" 0)) refl refl refl ((omega arith, tt), (tt, tt))

stored_problems_new_example :
    stored_problems
      (load_question []
        (new_question runtime.row_id 1 "a1" 2 (normalize_question authored) no_links))
      correct_answer
    ≡ question_problems (normalize_question authored) correct_answer
stored_problems_new_example =
    stored_problems_new runtime.row_id 1 "a1" 2 no_links [] authored correct_answer

section_keys_once_example :
    times "part-one" (values (section_keys unicode (first_section ∷ first_section ∷ []))) ≤ 1
section_keys_once_example =
    section_keys_once unicode (first_section ∷ first_section ∷ []) "part-one"

unique_slug_is_new_example : is_used (slugs library) (unique_slug "reading" library) ≡ false
unique_slug_is_new_example = unique_slug_is_new "reading" library

abbrev publish : AssessmentPatch
publish = record {
  name = none;
  slug = none;
  tagline = none;
  description = none;
  level = none;
  relevant_for = none;
  instructions = none;
  duration_minutes = none;
  scoring_method = some correct_answer;
  status = some published;
  question_order = none;
  shuffle_options = none;
  allow_back_navigation = none;
  audio_replays = none;
}

update_test_ready_example :
    ((c : AssessmentRow Fraction) × (d : Library Fraction) × (update_test runtime "a1" publish
          library
        ≡ (ok c, d))
      × (publish_problems c ≡ []))
    ⊎ ((e : HttpError) × (update_test runtime "a1" publish library ≡ (err e, library)))
update_test_ready_example = update_test_ready runtime "a1" publish library draft_test refl refl refl
