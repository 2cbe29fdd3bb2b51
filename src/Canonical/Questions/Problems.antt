-- ===== src/Canonical/Questions/Problems.antt =====
-- `questionProblems`: the sentences for the author, in their order.
use Prim.Native.String.{◌++◌ as append}
use tmx_assessment.Prelude.{
  ℕ, ◌≤◌, ◌≡◌, ◌↔◌, ◌⊎◌, arith, String, Bool, true, false, ◌&&◌, ◌||◌, not, ltb, ◌==◌, Option, none,
  some, List, [], ◌∷◌, ◌++◌, map, any, count_if, length,
}
use tmx_assessment.Prelude.Int.{ℤ, eqb_ℤ, ltb_ℤ}
use tmx_assessment.Prelude.Text.{filled}
use tmx_assessment.Schema.{
  ScoringMethod, correct_answer, alignment, QuestionType, single_choice, true_false, rating_scale,
  choice_scale,
}
use tmx_assessment.Canonical.Questions.{
  CanonicalOption, CanonicalQuestion, max_choice_options, min_scale_points, max_scale_points,
}

-- QUESTION_TYPE_LABELS
abbrev pub type_label : QuestionType → String
type_label single_choice = "Single choice"
type_label true_false = "True/False"
type_label rating_scale = "Rating scale"
type_label choice_scale = "Choice scale"

-- `questionTypesFor(method).includes(type)`
unfoldable pub is_type_for : ScoringMethod → QuestionType → Bool
is_type_for correct_answer single_choice = true
is_type_for correct_answer true_false = true
is_type_for alignment rating_scale = true
is_type_for alignment choice_scale = true
is_type_for _ _ = false

abbrev wrong_type : ScoringMethod → String
wrong_type alignment =
    " questions have a right answer, so they can't go in a test scored by alignment."
wrong_type correct_answer =
    " questions have no right answer, so they can't go in a test scored by correct answers."

-- One sentence, when the test holds.
abbrev pub problem_if : Bool → String → List String
problem_if true problem = problem ∷ []
problem_if false problem = []

abbrev pub is_textless : CanonicalOption → Bool
is_textless o = not (filled o.text)

abbrev pub count_correct : List CanonicalOption → ℕ
count_correct options = count_if (λ o. o.correct) options

-- Whether each value is there, and above the one before it.
unfoldable pub increasing_from : ℤ → List (Option ℤ) → Bool
increasing_from last [] = true
increasing_from last (none ∷ values) = false
increasing_from last (some value ∷ values) = ltb_ℤ last value && increasing_from value values

unfoldable pub is_increasing : List (Option ℤ) → Bool
unfolding increasing_from
is_increasing [] = true
is_increasing (none ∷ values) = false
is_increasing (some value ∷ values) = increasing_from value values

abbrev pub is_value : ℤ → Option ℤ → Bool
is_value x none = false
is_value x (some y) = eqb_ℤ x y

-- Whether the role profile's answer is one of the values.
unfoldable pub is_answered : Option ℤ → List (Option ℤ) → Bool
is_answered none values = false
is_answered (some x) values = any (is_value x) values

abbrev pub values_of : List CanonicalOption → List (Option ℤ)
values_of options = map (λ o. o.value) options

unfoldable pub scale_problems : Option ℤ → List CanonicalOption → List String
unfolding is_increasing is_answered
scale_problems employer_value options =
    problem_if (not (is_increasing (values_of options)))
      "Scale values must be whole numbers in increasing order."
    ++ problem_if (not (is_answered employer_value (values_of options)))
        "Set the role profile's answer to one of the scale values."

unfoldable pub type_problems : QuestionType → Option ℤ → List CanonicalOption → List String
unfolding scale_problems
type_problems single_choice employer_value options =
    problem_if (ltb (length options) 2) "Add at least two options."
    ++ problem_if (ltb max_choice_options (length options)) "Use at most 6 options."
    ++ problem_if (any is_textless options) "Give every option some text."
    ++ problem_if (not (count_correct options == 1)) "Mark exactly one option as correct."
type_problems true_false employer_value options =
    problem_if (not (length options == 2)) "A True/False question has exactly two options."
    ++ problem_if (not (count_correct options == 1)) "Mark True or False as correct."
type_problems rating_scale employer_value options =
    problem_if (ltb (length options) min_scale_points || ltb max_scale_points (length options))
      "A rating scale has 2 to 7 points."
    ++ scale_problems employer_value options
type_problems choice_scale employer_value options =
    problem_if (ltb (length options) min_scale_points || ltb max_choice_options (length options))
      "Use 2 to 6 choices."
    ++ problem_if (any is_textless options) "Give every choice some text."
    ++ scale_problems employer_value options

unfoldable pub question_problems : CanonicalQuestion → ScoringMethod → List String
unfolding is_type_for type_problems
question_problems q method =
    problem_if (not (filled q.stem)) "Write the question."
    ++ problem_if (not (is_type_for method q.type)) (append (type_label q.type) (wrong_type method))
    ++ type_problems q.type q.employer_value q.options

-- A question has no problem in a test scored by correct answers exactly when it has a text, and it is a
-- single choice with two to six options that all have a text, or a True/False question with two options;
-- and exactly one option is correct.
pub correct_answer_ready_iff :
    (q : CanonicalQuestion)
    → (question_problems q correct_answer ≡ [])
      ↔ (filled q.stem ≡ true)
        × (count_correct q.options ≡ 1)
        × (((q.type ≡ single_choice)
              × (2 ≤ length q.options)
              × (length q.options ≤ 6)
              × (any is_textless q.options ≡ false))
            ⊎ ((q.type ≡ true_false) × (length q.options ≡ 2)))
unfolding question_problems is_type_for type_problems
correct_answer_ready_iff q = ground arith

-- A question has no problem in a test scored by alignment exactly when it has a text, and it is a rating
-- scale with two to seven points, or a choice scale with two to six choices that all have a text; the
-- scale values rise, and the role profile's answer is one of them.
pub alignment_ready_iff :
    (q : CanonicalQuestion)
    → (question_problems q alignment ≡ [])
      ↔ (filled q.stem ≡ true)
        × (is_increasing (values_of q.options) ≡ true)
        × (is_answered q.employer_value (values_of q.options) ≡ true)
        × (((q.type ≡ rating_scale) × (2 ≤ length q.options) × (length q.options ≤ 7))
            ⊎ ((q.type ≡ choice_scale)
                × (2 ≤ length q.options)
                × (length q.options ≤ 6)
                × (any is_textless q.options ≡ false)))
unfolding question_problems is_type_for type_problems scale_problems
alignment_ready_iff q = ground arith
