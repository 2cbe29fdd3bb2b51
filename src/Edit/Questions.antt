-- ===== src/Edit/Questions.antt =====
-- questions.service.ts: a test's questions with their options, and its score bands. What the editor sends
-- is normalized and checked before it is written. A `$transaction` runs as one step.
pub mod Stored
pub mod Placed
pub mod Copied
use tmx_assessment.Prelude.{
  ℕ, suc, ◌+◌, String, Bool, true, false, ◌&&◌, not, leb, ltb, ◌==◌, Option, none, some, List, [],
  ◌∷◌, ◌++◌, map, filter, find?, any, concat, length, if◌then◌else◌,
}
use tmx_assessment.Prelude.Int.{ℤ}
use tmx_assessment.Prelude.Text.{◌===◌, filled}
use tmx_assessment.Prelude.Names.{members}
use tmx_assessment.Prelude.Sort.{sort}
use tmx_assessment.Float.{Float}
use tmx_assessment.Http.{
  bad_request, not_found, Action, pure, gets, found_or, modify, throw_if, done, ◌>>=◌, ◌>>◌,
}
use tmx_assessment.Schema.{MediaRow, QuestionType, Difficulty, QuestionRow, BandRow, AssessmentRow}
use tmx_assessment.Canonical.Questions.{CanonicalOption, CanonicalQuestion, normalize_question}
use tmx_assessment.Canonical.Questions.Problems.{question_problems}
use tmx_assessment.Canonical.Mapper.{
  QuestionLinks, QuestionFields, OptionFields, question_fields, option_fields,
  to_canonical_question, truthy,
}
use tmx_assessment.Canonical.Snapshot.{row_before}
use tmx_assessment.Take.Store.{update_many}
use tmx_assessment.Edit.Store.{
  StoredOption, StoredQuestion, StoredBand, Library, Runtime, content, find_test, is_question_of,
  is_band_of, next_order, is_reordering,
}
use tmx_assessment.Edit.Sections.{find_section, reorder_from}

abbrev pub max_questions : ℕ
max_questions = 100

-- QuestionOptionInputDto
pub record OptionInput : Type 0 where
  pub id : Option String
  pub text : String
  pub employer_text : Option String
  pub value : Option ℤ
  pub is_correct : Bool

-- QuestionInputDto
pub record QuestionInput : Type 0 where
  pub section_id : Option String
  pub ref : Option String
  pub type : QuestionType
  pub difficulty : Option Difficulty
  pub instruction : Option String
  pub context : Option String
  pub stem : String
  pub media_id : Option String
  pub media_file_name : Option String
  pub options : List OptionInput
  pub rationale : Option String
  pub transcript : Option String
  pub shuffle_options : Option Bool
  pub keep_last_option_fixed : Bool
  pub employer_prompt : Option String
  pub employer_value : Option ℤ

-- BandInputDto
pub record BandInput (F : Type 0) : Type 0 where
  pub min_score : F
  pub label : String
  pub interpretation : Option String
  pub recommended_action : Option String

abbrev pub input_option : OptionInput → CanonicalOption
input_option o = record {
  label = none;
  text = o.text;
  employer_text = o.employer_text;
  value = o.value;
  correct = o.is_correct;
}

-- The question that `prepare` normalizes.
unfoldable pub input_question : QuestionInput → CanonicalQuestion
input_question i = record {
  ref = i.ref;
  section = none;
  type = i.type;
  difficulty = i.difficulty;
  instruction = i.instruction;
  context = i.context;
  stem = i.stem;
  media = none;
  options = map input_option i.options;
  rationale = i.rationale;
  transcript = i.transcript;
  shuffle_options = i.shuffle_options;
  keep_last_option_fixed = i.keep_last_option_fixed;
  employer_prompt = i.employer_prompt;
  employer_value = i.employer_value;
}

abbrev pub links_of : QuestionInput → QuestionLinks
links_of i = record {
  section_id = i.section_id;
  media_id = i.media_id;
  media_file_name = i.media_file_name;
}

abbrev pub id_list : Option String → List String
id_list none = []
id_list (some id) = id ∷ []

abbrev pub input_ids : List OptionInput → List String
input_ids options = concat (map (λ o. id_list o.id) options)

abbrev pub is_in : List String → String → Bool
is_in ids id = any (λ i. i === id) ids

abbrev pub is_known : List String → Option String → Bool
is_known ids none = false
is_known ids (some id) = filled id && is_in ids id

abbrev pub lists : {F : Type 0} → AssessmentRow F → Option String → Bool
lists c none = false
lists c (some id) = any (λ s. s.id === id) c.sections

abbrev pub has_media : Option String → List MediaRow → Bool
has_media none media = false
has_media (some id) media = any (λ m. m.id === id) media

abbrev pub twice : List String → Bool
twice ids = not (length (members ids) == length ids)

-- `question.options.map(optionFields)`, each with a new row id
unfoldable pub create_options : (ℕ → String) → ℕ → ℕ → List CanonicalOption → List StoredOption
unfolding option_fields
create_options row_id drawn order [] = []
create_options row_id drawn order (o ∷ os) =
    record { id = row_id drawn; fields = option_fields order o }
    ∷ create_options row_id (suc drawn) (suc order) os

-- The loop of `updateQuestion`: the option at a position takes over the row whose id was sent with it,
-- where the question has that row, and is a new row otherwise.
abbrev pub option_id_at : List OptionInput → Option String
option_id_at [] = none
option_id_at (i ∷ is) = i.id

abbrev pub rest_of : List OptionInput → List OptionInput
rest_of [] = []
rest_of (i ∷ is) = is

abbrev pub same_id : Option String → StoredOption → Bool
same_id none o = false
same_id (some id) o = o.id === id

unfoldable pub write_option :
    (ℕ → String)
    → List String
    → ℕ
    → Option String
    → OptionFields
    → List StoredOption
    → List StoredOption × ℕ
write_option row_id known drawn id fields rows =
    if is_known known id
    then (update_many (same_id id) (λ o. record o { fields = fields }) rows, drawn)
    else (rows ++ record { id = row_id drawn; fields = fields } ∷ [], suc drawn)

unfoldable pub write_options :
    (ℕ → String)
    → List String
    → ℕ
    → ℕ
    → List OptionInput
    → List CanonicalOption
    → List StoredOption
    → List StoredOption × ℕ
unfolding option_fields write_option
write_options row_id known drawn order inputs [] rows = (rows, drawn)
write_options row_id known drawn order inputs (o ∷ os) rows =
    let written : List StoredOption × ℕ =
      write_option row_id known drawn (option_id_at inputs) (option_fields order o) rows in
    write_options row_id known written.1 (suc order) (rest_of inputs) os written.0

abbrev pub kept_options : List String → List StoredOption → List StoredOption
kept_options sent rows = filter (λ o. is_in sent o.id) rows

-- A copy of a stored question as `duplicateQuestion` makes it: without its reference.
unfoldable pub copy_of : QuestionRow → CanonicalQuestion
unfolding normalize_question to_canonical_question
copy_of q = normalize_question (record (to_canonical_question q none) { ref = none })

abbrev pub shifted : StoredQuestion → StoredQuestion
shifted q = record q { order = q.order + 1 }

abbrev pub question_id : StoredQuestion → String
question_id q = q.id

abbrev pub with_order : ℕ → StoredQuestion → StoredQuestion
with_order order q = record q { order = order }

unfoldable pub new_question :
    (ℕ → String) → ℕ → String → ℕ → CanonicalQuestion → QuestionLinks → StoredQuestion
unfolding question_fields create_options
new_question row_id drawn test order q links = record {
  id = row_id drawn;
  assessment_id = test;
  order = order;
  fields = question_fields q links;
  options = create_options row_id (suc drawn) 0 q.options;
}

-- The row after `updateQuestion`.
unfoldable pub rewritten :
    (ℕ → String) → ℕ → CanonicalQuestion → QuestionInput → StoredQuestion → StoredQuestion
unfolding question_fields write_options
rewritten row_id drawn q input stored = record stored {
  fields = question_fields q (links_of input);
  options =
      (write_options row_id (map (λ o. o.id) stored.options) drawn 0 input.options q.options
        (kept_options (input_ids input.options) stored.options)).0;
}

abbrev pub too_many : String
too_many = "A test can hold up to 100 questions."

module _ {F : Type 0} where
  unfoldable pub find_question : AssessmentRow F → String → Option QuestionRow
  find_question c id = find? (λ q. q.id === id) c.questions

  -- `prepare`
  unfoldable pub prepare : AssessmentRow F → QuestionInput → Action (Library F) CanonicalQuestion
  unfolding input_question normalize_question question_problems members
  prepare c input = do
    throw_if (truthy input.section_id && not (lists c input.section_id))
        (bad_request ("That section isn’t in this test." ∷ []))
    throw_if (twice (input_ids input.options))
        (bad_request ("The same option id appears twice." ∷ []))
    media ← gets (λ db. db.media)
    throw_if (truthy input.media_id && not (has_media input.media_id media))
        (bad_request ("That audio file doesn’t exist any more. Upload it again." ∷ []))
    question ← pure (normalize_question (input_question input))
    throw_if (ltb 0 (length (question_problems question c.scoring_method)))
        (bad_request (question_problems question c.scoring_method))
    pure question

  unfoldable pub insert_question :
      (ℕ → String) → String → ℕ → CanonicalQuestion → QuestionLinks → Library F → Library F
  unfolding new_question
  insert_question row_id test order q links db = record db {
    questions = db.questions ++ new_question row_id db.drawn test order q links ∷ [];
    drawn = suc db.drawn + length q.options;
  }

  -- Makes room after a position.
  unfoldable pub shift_after : String → ℕ → Library F → Library F
  shift_after test order db = record db {
    questions = update_many (λ q. is_question_of test q && ltb order q.order) shifted db.questions;
  }

  module _ (rt : Runtime) where
    unfoldable pub create_question : String → QuestionInput → Action (Library F) (AssessmentRow F)
    unfolding content prepare insert_question next_order
    create_question test input = do
      c ← content test
      throw_if (leb max_questions (length c.questions)) (bad_request (too_many ∷ []))
      question ← prepare c input
      modify (
          insert_question rt.row_id test (next_order (λ q. q.order) c.questions) question
            (links_of input))
      content test

    -- As many row ids are drawn as the question has options.
    unfoldable pub rewrite_question :
        String → CanonicalQuestion → QuestionInput → Library F → Library F
    unfolding rewritten
    rewrite_question id q input db = record db {
      questions =
          update_many (λ s. question_id s === id) (rewritten rt.row_id db.drawn q input)
            db.questions;
      drawn = db.drawn + length q.options;
    }

    unfoldable pub update_question :
        String → String → QuestionInput → Action (Library F) (AssessmentRow F)
    unfolding content find_question prepare rewrite_question
    update_question test id input = do
      c ← content test
      existing ← found_or (not_found "That question isn’t in this test.") (find_question c id)
      question ← prepare c input
      modify (rewrite_question id question input)
      content test

    unfoldable pub duplicate_question : String → String → Action (Library F) (AssessmentRow F)
    unfolding content find_question shift_after insert_question copy_of
    duplicate_question test id = do
      c ← content test
      original ← found_or (not_found "That question isn’t in this test.") (find_question c id)
      throw_if (leb max_questions (length c.questions)) (bad_request (too_many ∷ []))
      modify (shift_after test original.order)
      modify (
          insert_question rt.row_id test (original.order + 1) (copy_of original) (record {
            section_id = original.section_id;
            media_id = original.media_id;
            media_file_name = original.media_file_name;
          }))
      content test

  unfoldable pub delete_question : String → Library F → Library F
  delete_question id db = record db {
    questions = filter (λ q. not (question_id q === id)) db.questions;
  }

  unfoldable pub remove_question : String → String → Action (Library F) (AssessmentRow F)
  unfolding content find_question delete_question
  remove_question test id = do
    c ← content test
    found ← found_or (not_found "That question isn’t in this test.") (find_question c id)
    modify (delete_question id)
    content test

  unfoldable pub reorder_questions : String → List String → Action (Library F) (AssessmentRow F)
  unfolding content is_reordering reorder_from
  reorder_questions test ids = do
    c ← content test
    throw_if (not (is_reordering (map (λ q. q.id) c.questions) ids))
        (bad_request ("Send every question id in this test once, in the new order." ∷ []))
    modify (λ db. record db { questions = reorder_from question_id with_order 0 ids db.questions })
    content test
