-- ===== src/Csv/Writing.antt =====
-- canonical/csv-questions.ts: `questionsToCsv`.
use tmx_assessment.Prelude.{
  ℕ, ◌-◌, String, Bool, true, false, Option, none, some, List, [], ◌∷◌, map, length, get_elem?,
  if◌then◌else◌,
}
use mathlib.Core.Option
use tmx_assessment.Prelude.Text.{filled}
use tmx_assessment.Prelude.Dict.{Dict, get, set}
use tmx_assessment.Schema.{
  QuestionType, single_choice, true_false, rating_scale, choice_scale, Difficulty, easy, medium,
  hard,
}
use tmx_assessment.Canonical.Rules.{is_scale}
use tmx_assessment.Canonical.Questions.{
  CanonicalOption, CanonicalMedia, CanonicalQuestion, option_letters, nat_text, int_text,
}
use tmx_assessment.Csv.{to_csv}
use tmx_assessment.Csv.Cells.{find_index}
use tmx_assessment.Csv.Header.{csv_columns, option_columns}
use tmx_assessment.Csv.Options.{or_empty}

-- What is not empty is set.
unfoldable pub put : String → Option String → Dict String → Dict String
unfolding set
put column none cells = cells
put column (some value) cells = if filled value then set column value cells else cells

abbrev pub type_words : QuestionType → String
type_words single_choice = "single_choice"
type_words true_false = "true_false"
type_words rating_scale = "rating_scale"
type_words choice_scale = "choice_scale"

abbrev pub difficulty_word : Difficulty → String
difficulty_word easy = "Easy"
difficulty_word medium = "Medium"
difficulty_word hard = "Hard"

abbrev pub file_of : Option CanonicalMedia → Option String
file_of none = none
file_of (some m) = m.file

abbrev pub yes_or_no : Bool → String
yes_or_no true = "yes"
yes_or_no false = "no"

-- Every column but those of the options
unfoldable pub put_fields : CanonicalQuestion → Dict String → Dict String
unfolding put int_text
put_fields q cells =
    let described : Dict String = put "transcript" q.transcript (
      put "rationale" q.rationale (
        put "media" (file_of q.media) (
          put "stem" (some q.stem) (
            put "context" q.context (
              put "instruction" q.instruction (
                put "difficulty" (Option.map difficulty_word q.difficulty) (
                  put "type" (some (type_words q.type))
                    (put "section" q.section (put "ref" q.ref cells))))))))) in
    put "employer_value" (Option.map int_text q.employer_value) (
      put "employer_prompt" q.employer_prompt (
        put "keep_last_option_fixed" (if q.keep_last_option_fixed then some "yes" else none)
          (put "shuffle_options" (Option.map yes_or_no q.shuffle_options) described)))

unfoldable pub put_texts : List String → List CanonicalOption → Dict String → Dict String
unfolding put
put_texts [] options cells = cells
put_texts columns [] cells = cells
put_texts (column ∷ columns) (o ∷ options) cells =
    put_texts columns options (put column (some o.text) cells)

abbrev pub text_of : Option CanonicalOption → Option String
text_of none = none
text_of (some o) = some o.text

abbrev pub employer_text_of : Option CanonicalOption → Option String
employer_text_of none = none
employer_text_of (some o) = o.employer_text

unfoldable pub put_scale : List CanonicalOption → Dict String → Dict String
unfolding put nat_text
put_scale options cells =
    let first : Option CanonicalOption = get_elem? options 0 in
    let last : Option CanonicalOption = get_elem? options (length options - 1) in
    put "employer_max_label" (employer_text_of last) (
      put "employer_min_label" (employer_text_of first) (
        put "scale_max_label" (text_of last) (
          put "scale_min_label" (text_of first)
            (put "scale_size" (some (nat_text (length options))) cells))))

abbrev pub letter_of : Option ℕ → Option String
letter_of none = none
letter_of (some index) = get_elem? option_letters index

unfoldable pub put_choices : QuestionType → List CanonicalOption → Dict String → Dict String
unfolding put put_texts is_scale find_index
put_choices type options cells =
    let written : Dict String = put_texts option_columns options cells in
    if is_scale type
    then written
    else put "correct" (letter_of (find_index (λ o. o.correct) options)) written

unfoldable pub put_options : QuestionType → List CanonicalOption → Dict String → Dict String
unfolding put_scale put_choices
put_options rating_scale options cells = put_scale options cells
put_options type options cells = put_choices type options cells

-- `questionRow`
unfoldable pub question_row : CanonicalQuestion → List String
unfolding put_fields put_options get
question_row q =
    let cells : Dict String = put_options q.type q.options (put_fields q []) in
    map (λ column. or_empty (get column cells)) csv_columns

unfoldable pub questions_to_csv : List CanonicalQuestion → String
unfolding to_csv question_row
questions_to_csv questions = to_csv (csv_columns ∷ map question_row questions)
