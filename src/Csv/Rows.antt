-- ===== src/Csv/Rows.antt =====
-- canonical/csv-questions.ts: `parseQuestionCsv`, one row for each question.
use Prim.Native.String.{◌++◌ as append}
use tmx_assessment.Prelude.{
  ℕ, suc, String, Bool, true, false, ◌&&◌, not, leb, ltb, Option, none, some, List, [], ◌∷◌, ◌++◌,
  map, all, length, if◌then◌else◌,
}
use tmx_assessment.Prelude.Text.{filled, trim}
use tmx_assessment.Prelude.Dict.{Dict, has}
use tmx_assessment.Schema.{ScoringMethod, QuestionType}
use tmx_assessment.Canonical.Questions.{
  CanonicalOption, CanonicalQuestion, normalize_question, nat_text,
}
use tmx_assessment.Canonical.Questions.Problems.{question_problems}
use tmx_assessment.Canonical.Slugs.{Unicode}
use tmx_assessment.Csv.{CsvResult, parsed, never_closes, parse_csv}
use tmx_assessment.Csv.Cells.{parse_type, parse_difficulty, parse_boolean, parse_integer}
use tmx_assessment.Csv.Header.{
  CsvIssue, Header, ParsedQuestionCsv, cell, given_or, given_or_none, is_invalid, issue_at,
  read_header,
}
use tmx_assessment.Csv.Options.{RowOptions, typed_options}

abbrev pub issue_if : Bool → CsvIssue → List CsvIssue
issue_if true i = i ∷ []
issue_if false i = []

abbrev pub has_type : Option QuestionType → Bool
has_type none = false
has_type (some type) = true

-- What is wrong with the cells before the options, in their order.
unfoldable pub cell_issues : Unicode → ScoringMethod → ℕ → (String → String) → List CsvIssue
unfolding parse_type parse_difficulty parse_boolean parse_integer
cell_issues u method row at =
    issue_if (not (has_type (parse_type u (at "type") method))) (
      issue_at (some row) "type" (
        append "\"" (
          append (at "type")
            "\" isn't a question type. Use single choice, true/false, rating scale or choice scale.")))
    ++ issue_if (is_invalid (parse_difficulty u (at "difficulty")))
        (issue_at (some row) "difficulty" "Use Easy, Medium or Hard, or leave it blank.")
    ++ issue_if (is_invalid (parse_boolean (at "shuffle_options"))) (
        issue_at (some row) "shuffle_options"
          "Use yes or no, or leave it blank to follow the test.")
    ++ issue_if (is_invalid (parse_boolean (at "keep_last_option_fixed")))
        (issue_at (some row) "keep_last_option_fixed" "Use yes or no, or leave it blank.")
    ++ issue_if (is_invalid (parse_integer (at "employer_value")))
        (issue_at (some row) "employer_value" "Use a whole number, such as 3.")
    ++ issue_if (not (filled (at "stem"))) (issue_at (some row) "stem" "Write the question text.")

unfoldable pub row_question :
    Unicode → (String → String) → QuestionType → List CanonicalOption → CanonicalQuestion
unfolding normalize_question parse_difficulty parse_boolean parse_integer
row_question u at type options = normalize_question (record {
  ref = some (at "ref");
  section = some (at "section");
  type = type;
  difficulty = given_or_none (parse_difficulty u (at "difficulty"));
  instruction = some (at "instruction");
  context = some (at "context");
  stem = at "stem";
  media = some (record { file = some (at "media"); asset_id = none });
  options = options;
  rationale = some (at "rationale");
  transcript = some (at "transcript");
  shuffle_options = given_or_none (parse_boolean (at "shuffle_options"));
  keep_last_option_fixed = given_or false (parse_boolean (at "keep_last_option_fixed"));
  employer_prompt = some (at "employer_prompt");
  employer_value = given_or_none (parse_integer (at "employer_value"));
})

abbrev pub no_row : List CsvIssue → List CsvIssue → ParsedQuestionCsv
no_row errors warnings = record { rows = []; errors = errors; warnings = warnings }

abbrev pub row_issue : ℕ → String → CsvIssue
row_issue row message = record { row = some row; column = none; message = message }

-- A row without issues that has a type, with what the rules find in its question
abbrev pub row_of : ℕ → CanonicalQuestion → List CsvIssue → List String → ParsedQuestionCsv
row_of row question warnings [] = record {
  rows = record { row = row; question = question } ∷ [];
  errors = [];
  warnings = warnings;
}
row_of row question warnings (problem ∷ problems) =
    no_row (map (row_issue row) (problem ∷ problems)) warnings

unfoldable pub checked_row :
    ℕ → ScoringMethod → CanonicalQuestion → List CsvIssue → ParsedQuestionCsv
unfolding question_problems
checked_row row method question warnings =
    row_of row question warnings (question_problems question method)

unfoldable pub typed_row :
    Unicode
    → ScoringMethod
    → ℕ
    → (String → String)
    → RowOptions
    → List CsvIssue
    → Option QuestionType
    → ParsedQuestionCsv
unfolding row_question checked_row
typed_row u method row at options issues none = no_row issues options.warnings
typed_row u method row at options issues (some type) =
    if ltb 0 (length issues)
    then no_row issues options.warnings
    else checked_row row method (row_question u at type options.options) options.warnings

unfoldable pub read_row : Unicode → ScoringMethod → ℕ → (String → String) → ParsedQuestionCsv
unfolding cell_issues typed_options typed_row parse_type
read_row u method row at =
    let options : RowOptions = typed_options u row at (parse_type u (at "type") method) in
    typed_row u method row at options (cell_issues u method row at ++ options.issues)
      (parse_type u (at "type") method)

abbrev pub is_blank_record : List String → Bool
unfolding trim
is_blank_record values = all (λ value. not (filled (trim value))) values

abbrev pub joined : ParsedQuestionCsv → ParsedQuestionCsv → ParsedQuestionCsv
joined a b = record {
  rows = a.rows ++ b.rows;
  errors = a.errors ++ b.errors;
  warnings = a.warnings ++ b.warnings;
}

unfoldable pub read_rows :
    Unicode → ScoringMethod → Dict ℕ → ℕ → List (List String) → ParsedQuestionCsv
unfolding is_blank_record read_row cell
read_rows u method columns row [] = no_row [] []
read_rows u method columns row (values ∷ data') =
    let rest : ParsedQuestionCsv = read_rows u method columns (suc row) data' in
    if is_blank_record values
    then rest
    else joined (read_row u method row (cell columns values)) rest

abbrev pub whole_file : String → CsvIssue
whole_file message = record { row = none; column = none; message = message }

abbrev pub or_no_questions : ParsedQuestionCsv → ParsedQuestionCsv
or_no_questions p =
    if leb (length p.rows) 0 && leb (length p.errors) 0
    then record p { errors = whole_file "The file has no questions under the header row." ∷ [] }
    else p

abbrev pub stem_issue : Dict ℕ → List CsvIssue
unfolding has
stem_issue columns =
    issue_if (not (has "stem" columns))
      (issue_at (some 1) "stem" "The file needs a \"stem\" column with the question text.")

-- The rows under a header without errors
unfoldable pub read_data :
    Unicode → ScoringMethod → Header → List CsvIssue → List (List String) → ParsedQuestionCsv
unfolding read_rows
read_data u method h errors data' =
    if ltb 0 (length errors)
    then no_row errors h.warnings
    else or_no_questions (joined (no_row [] h.warnings) (read_rows u method h.columns 2 data'))

unfoldable pub read_table :
    Unicode → ScoringMethod → List String → List (List String) → ParsedQuestionCsv
unfolding is_blank_record read_header stem_issue read_data
read_table u method header data' =
    let h : Header = read_header u 0 header (record { columns = []; errors = []; warnings = [] }) in
    if is_blank_record header
    then no_row (whole_file "The file is empty. Download the template to see the columns." ∷ []) []
    else read_data u method h (h.errors ++ stem_issue h.columns) data'

unfoldable pub read_parsed : Unicode → ScoringMethod → CsvResult → ParsedQuestionCsv
unfolding read_table
read_parsed u method (never_closes row) =
    no_row
      (record {
        row = some row;
        column = none;
        message = append "Row " (
            append (nat_text row)
              " has a quoted value that never closes. Check for a stray \" character.");
      }
        ∷ [])
      []
read_parsed u method (parsed []) = read_table u method [] []
read_parsed u method (parsed (header ∷ data')) = read_table u method header data'

-- `parseQuestionCsv`
unfoldable pub parse_question_csv : Unicode → String → ScoringMethod → ParsedQuestionCsv
unfolding parse_csv read_parsed
parse_question_csv u text method = read_parsed u method (parse_csv text)
