-- ===== src/Csv/Ready.antt =====
-- canonical/csv-questions.ts: the questions of a file that was read have no problems.
use tmx_assessment.Prelude.{
  ℕ, suc, ◌≡◌, ◌<◌, ◌+◌, refl, sym, subst, arith, String, inl, inr, Bool-cases, All, All-append,
  Option, none, some, List, [], ◌∷◌, ◌++◌, length, ltb,
}
use tmx_assessment.Prelude.Dict.{Dict}
use tmx_assessment.Schema.{ScoringMethod, QuestionType}
use tmx_assessment.Canonical.Questions.{CanonicalQuestion}
use tmx_assessment.Canonical.Questions.Problems.{question_problems}
use tmx_assessment.Canonical.Slugs.{Unicode}
use tmx_assessment.Csv.{CsvResult, parsed, never_closes, parse_csv}
use tmx_assessment.Csv.Cells.{parse_type}
use tmx_assessment.Csv.Options.{RowOptions, typed_options}
use tmx_assessment.Csv.Header.{
  CsvIssue, CsvQuestionRow, Header, ParsedQuestionCsv, read_header, cell,
}
use tmx_assessment.Csv.Rows.{
  row_of, no_row, joined, checked_row, typed_row, cell_issues, row_question, read_row, read_rows,
  is_blank_record, or_no_questions, stem_issue, read_data, read_table, read_parsed,
  parse_question_csv,
}

-- A row whose question has no problem
pub IsReady : ScoringMethod → CsvQuestionRow → Type 0
IsReady method r = question_problems r.question method ≡ []

pub IsExplained : ParsedQuestionCsv → Type 0
IsExplained p = 0 < length p.rows + length p.errors

row_of-IsReady :
    (row : ℕ) (method : ScoringMethod) (q : CanonicalQuestion) (warnings : List CsvIssue)
    (problems : List String)
    → question_problems q method ≡ problems
    → All (IsReady method) (row_of row q warnings problems).rows
unfolding IsReady
row_of-IsReady row method q warnings [] h = (h, tt)
row_of-IsReady row method q warnings (p ∷ ps) h = tt

typed_row-IsReady :
    (u : Unicode) (method : ScoringMethod) (row : ℕ) (at : String → String) (options : RowOptions)
    (issues : List CsvIssue) (type : Option QuestionType)
    → All (IsReady method) (typed_row u method row at options issues type).rows
unfolding typed_row checked_row
typed_row-IsReady u method row at options issues none = tt
typed_row-IsReady u method row at options issues (some type) =
    elim (Bool-cases (ltb 0 (length issues))) [
      | inl e ↦ rw e tt
      | inr e ↦ rw e (
          row_of-IsReady row method (row_question u at type options.options) options.warnings _
            refl)
    ]

read_row-IsReady :
    (u : Unicode) (method : ScoringMethod) (row : ℕ) (at : String → String)
    → All (IsReady method) (read_row u method row at).rows
unfolding read_row
read_row-IsReady u method row at =
    let options : RowOptions = typed_options u row at (parse_type u (at "type") method) in
    typed_row-IsReady u method row at options (cell_issues u method row at ++ options.issues)
      (parse_type u (at "type") method)

read_rows-IsReady :
    (u : Unicode) (method : ScoringMethod) (columns : Dict ℕ) (row : ℕ) (data' : List (List String))
    → All (IsReady method) (read_rows u method columns row data').rows
unfolding read_rows
read_rows-IsReady u method columns row [] = tt
read_rows-IsReady u method columns row (values ∷ data') =
    elim (Bool-cases (is_blank_record values)) [
      | inl e ↦ rw e (read_rows-IsReady u method columns (suc row) data')
      | inr e ↦ rw e (
          All-append (IsReady method) _ _ (read_row-IsReady u method row (cell columns values))
            (read_rows-IsReady u method columns (suc row) data'))
    ]

or_no_questions-rows : (p : ParsedQuestionCsv) → (or_no_questions p).rows ≡ p.rows
or_no_questions-rows p = ground arith

or_no_questions-IsExplained : (p : ParsedQuestionCsv) → IsExplained (or_no_questions p)
unfolding IsExplained
or_no_questions-IsExplained p = ground arith

or_no_questions-IsReady :
    (method : ScoringMethod) (p : ParsedQuestionCsv)
    → All (IsReady method) p.rows
    → All (IsReady method) (or_no_questions p).rows × IsExplained (or_no_questions p)
or_no_questions-IsReady method p h =
    (subst (All (IsReady method)) (sym (or_no_questions-rows p)) h, or_no_questions-IsExplained p)

read_data-IsReady :
    (u : Unicode) (method : ScoringMethod) (h : Header) (errors : List CsvIssue)
    (data' : List (List String))
    → All (IsReady method) (read_data u method h errors data').rows
      × IsExplained (read_data u method h errors data')
unfolding read_data IsExplained
read_data-IsReady u method h errors data' = elim (Bool-cases (ltb 0 (length errors))) [
  | inl e ↦ let some_error : 0 < 0 + length errors = ground arith in rw e (tt, some_error)
  | inr e ↦ rw e (
      or_no_questions-IsReady method
        (joined (no_row [] h.warnings) (read_rows u method h.columns 2 data'))
        (read_rows-IsReady u method h.columns 2 data'))
]

read_table-IsReady :
    (u : Unicode) (method : ScoringMethod) (header : List String) (data' : List (List String))
    → All (IsReady method) (read_table u method header data').rows
      × IsExplained (read_table u method header data')
unfolding read_table IsExplained
read_table-IsReady u method header data' =
    let h : Header = read_header u 0 header (record { columns = []; errors = []; warnings = [] }) in
    elim (Bool-cases (is_blank_record header)) [
      | inl e ↦ rw e (tt, ground arith)
      | inr e ↦ rw e (read_data-IsReady u method h (h.errors ++ stem_issue h.columns) data')
    ]

read_parsed-IsReady :
    (u : Unicode) (method : ScoringMethod) (r : CsvResult)
    → All (IsReady method) (read_parsed u method r).rows × IsExplained (read_parsed u method r)
unfolding IsExplained read_parsed
read_parsed-IsReady u method (never_closes row) = (tt, ground arith)
read_parsed-IsReady u method (parsed []) = read_table-IsReady u method [] []
read_parsed-IsReady u method (parsed (header ∷ data')) = read_table-IsReady u method header data'

-- A file of questions gives only questions without problems under the test's scoring method, and a file
-- that gives no question gives an error.
pub parse_question_csv-IsReady :
    (u : Unicode) (text : String) (method : ScoringMethod)
    → All (IsReady method) (parse_question_csv u text method).rows
      × IsExplained (parse_question_csv u text method)
unfolding parse_question_csv
parse_question_csv-IsReady u text method = read_parsed-IsReady u method (parse_csv text)
