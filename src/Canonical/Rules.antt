-- ===== src/Canonical/Rules.antt =====
-- question-rules.ts: which questions a test can hold, what an author can leave out, and what is
-- wrong with a question.
use tmx_assessment.Prelude.{Bool, true, false, Option, none, some}
use tmx_assessment.Schema.{QuestionType, single_choice, rating_scale, choice_scale}

unfoldable pub is_scale : QuestionType → Bool
is_scale rating_scale = true
is_scale choice_scale = true
is_scale _ = false

-- Only single-choice options move; the question's setting goes before the test's.
unfoldable pub shuffles_options : QuestionType → Option Bool → Bool → Bool
shuffles_options single_choice none test_setting = test_setting
shuffles_options single_choice (some question_setting) test_setting = question_setting
shuffles_options _ _ _ = false
