-- ===== src/Tests/Questions.antt =====
-- The theorems on questions, at one question.
use tmx_assessment.Prelude.{◌≡◌, ◌≤◌, ◌↔◌, ◌⊎◌, true, false, none, some, [], ◌∷◌, any, length}
use tmx_assessment.Prelude.Int.{pos}
use tmx_assessment.Prelude.Text.{filled}
use tmx_assessment.Schema.{
  correct_answer, alignment, single_choice, true_false, rating_scale, choice_scale,
}
use tmx_assessment.Canonical.Questions.{CanonicalOption, CanonicalQuestion, normalize_question}
use tmx_assessment.Canonical.Questions.Normal.{normalize_question-twice}
use tmx_assessment.Canonical.Questions.Problems.{
  question_problems, count_correct, is_textless, is_increasing, is_answered, values_of,
  correct_answer_ready_iff, alignment_ready_iff,
}

abbrev authored_option : CanonicalOption
authored_option = record {
  label = none;
  text = " Yes ";
  employer_text = none;
  value = none;
  correct = true;
}

abbrev pub authored : CanonicalQuestion
authored = record {
  ref = none;
  section = some " s1 ";
  type = single_choice;
  difficulty = none;
  instruction = some "  ";
  context = none;
  stem = " Ready? ";
  media = none;
  options = authored_option ∷ record authored_option { correct = false } ∷ [];
  rationale = none;
  transcript = none;
  shuffle_options = none;
  keep_last_option_fixed = false;
  employer_prompt = none;
  employer_value = some (pos 1);
}

normalize_question-twice_example :
    normalize_question (normalize_question authored) ≡ normalize_question authored
normalize_question-twice_example = normalize_question-twice authored

correct_answer_ready_example :
    (question_problems authored correct_answer ≡ [])
    ↔ (filled authored.stem ≡ true)
      × (count_correct authored.options ≡ 1)
      × (((authored.type ≡ single_choice)
            × (2 ≤ length authored.options)
            × (length authored.options ≤ 6)
            × (any is_textless authored.options ≡ false))
          ⊎ ((authored.type ≡ true_false) × (length authored.options ≡ 2)))
correct_answer_ready_example = correct_answer_ready_iff authored

alignment_ready_example :
    (question_problems authored alignment ≡ [])
    ↔ (filled authored.stem ≡ true)
      × (is_increasing (values_of authored.options) ≡ true)
      × (is_answered authored.employer_value (values_of authored.options) ≡ true)
      × (((authored.type ≡ rating_scale)
            × (2 ≤ length authored.options)
            × (length authored.options ≤ 7))
          ⊎ ((authored.type ≡ choice_scale)
              × (2 ≤ length authored.options)
              × (length authored.options ≤ 6)
              × (any is_textless authored.options ≡ false)))
alignment_ready_example = alignment_ready_iff authored
