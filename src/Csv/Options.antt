-- ===== src/Csv/Options.antt =====
-- canonical/csv-questions.ts: the options of a row and its key.
use Prim.Native.String.{◌++◌ as append}
use tmx_assessment.Prelude.{
  ℕ, ◌-◌, String, ◌&&◌, not, leb, ◌==◌, Option, none, some, List, [], ◌∷◌, ◌++◌, map, map_idx, any,
  length, get_elem?, if◌then◌else◌,
}
use tmx_assessment.Prelude.Int.{ℤ, pos}
use tmx_assessment.Prelude.Text.{filled}
use tmx_assessment.Schema.{QuestionType, true_false, rating_scale}
use tmx_assessment.Canonical.Rules.{is_scale}
use tmx_assessment.Canonical.Questions.{
  CanonicalOption, option_letters, true_false_options, blank_option,
}
use tmx_assessment.Canonical.Slugs.{Unicode}
use tmx_assessment.Csv.Cells.{
  Cell, given, parse_integer, find_index, correct_index, rating_scale_options,
}
use tmx_assessment.Csv.Header.{CsvIssue, issue_at, option_columns}

-- What the options of a row come to.
pub record RowOptions : Type 0 where
  pub options : List CanonicalOption
  pub issues : List CsvIssue
  pub warnings : List CsvIssue

abbrev pub no_options : RowOptions
no_options = record { options = []; issues = []; warnings = [] }

-- `typeof size === 'number'` within the limits
abbrev pub scale_size_of : Cell ℤ → Option ℕ
scale_size_of (given (pos n)) = if leb 2 n && leb n 7 then some n else none
scale_size_of _ = none

-- Up to the last value that is not blank.
unfoldable pub up_to_last : List String → List String
up_to_last [] = []
up_to_last (x ∷ xs) =
    let rest = up_to_last xs in if not (filled x) && leb (length rest) 0 then [] else x ∷ rest

unfoldable pub scale_row : ℕ → (String → String) → RowOptions
unfolding parse_integer rating_scale_options
scale_row row at =
    let size : Option ℕ =
      if filled (at "scale_size")
      then scale_size_of (parse_integer (at "scale_size"))
      else some 5 in
    record {
      options = elim size [
        | none ↦ []
        | some n ↦ rating_scale_options n (record {
          min = at "scale_min_label";
          max = at "scale_max_label";
          employer_min = at "employer_min_label";
          employer_max = at "employer_max_label";
        })
      ];
      issues = elim size [
        | none ↦ issue_at (some row) "scale_size" "Use a number from 2 to 7." ∷ []
        | some n ↦ []
      ];
      warnings =
          if any (λ column. filled (at column)) option_columns
          then issue_at (some row) "option_a"
              "Rating scales use scale_size and the label columns, so the option columns are ignored."
            ∷ []
          else [];
    }

abbrev pub or_empty : Option String → String
or_empty none = ""
or_empty (some s) = s

unfoldable pub gap_issues : ℕ → List String → List CsvIssue
unfolding find_index
gap_issues row texts = elim (find_index (λ text. not (filled text)) texts) [
  | none ↦ []
  | some gap ↦
      issue_at (some row) (or_empty (get_elem? option_columns gap))
        "Fill in the options in order, without gaps."
      ∷ []
]

abbrev pub row_options : QuestionType → List String → List CanonicalOption
row_options true_false [] = true_false_options
row_options type texts = map blank_option texts

abbrev pub marked : ℕ → ℕ → CanonicalOption → CanonicalOption
marked at i o = record o { correct = i == at }

-- The key of a row: an option for a question with a right answer, and a warning for a scale.
unfoldable pub keyed : Unicode → ℕ → String → QuestionType → List CanonicalOption → RowOptions
unfolding is_scale correct_index
keyed u row key type options =
    if is_scale type
    then record {
      options = options;
      issues = [];
      warnings =
          if filled key
          then issue_at (some row) "correct"
              "Choice scales have no right answer, so \"correct\" is ignored."
            ∷ []
          else [];
    }
    else if not (filled key)
    then record {
      options = options;
      issues = issue_at (some row) "correct" "Say which option is correct, such as B." ∷ [];
      warnings = [];
    }
    else elim (correct_index u key options type) [
      | some at ↦ record { options = map_idx (marked at) options; issues = []; warnings = [] }
      | none ↦ record {
        options = options;
        issues =
            issue_at (some row) "correct" (
              append "\"" (
                append key (
                  append "\" doesn't match an option. Use a letter from A to "
                    (append (or_empty (get_elem? option_letters (length options - 1))) "."))))
            ∷ [];
        warnings = [];
      }
    ]

unfoldable pub choice_row : Unicode → ℕ → (String → String) → QuestionType → RowOptions
unfolding up_to_last gap_issues keyed
choice_row u row at type =
    let texts : List String = up_to_last (map at option_columns) in
    let read : RowOptions = keyed u row (at "correct") type (row_options type texts) in
    record read { issues = gap_issues row texts ++ read.issues }

unfoldable pub typed_options : Unicode → ℕ → (String → String) → Option QuestionType → RowOptions
unfolding scale_row choice_row
typed_options u row at none = no_options
typed_options u row at (some rating_scale) = scale_row row at
typed_options u row at (some type) = choice_row u row at type
