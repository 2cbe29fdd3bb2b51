-- ===== src/Csv/Header.antt =====
-- canonical/csv-questions.ts: the columns of a question file, and its cells.
use Prim.Native.Char.{code}
use Prim.Native.String.{◌++◌ as append, [] as empty, ◌∷◌ as cons}
use tmx_assessment.Prelude.{
  ℕ, suc, String, Bool, true, false, ◌||◌, not, ◌==◌, Option, none, some, List, [], ◌∷◌, ◌++◌, any,
  get_elem?, if◌then◌else◌,
}
use tmx_assessment.Prelude.Text.{◌===◌, filled, trim, is_space}
use tmx_assessment.Prelude.Dict.{Dict, get, set, has}
use tmx_assessment.Canonical.Questions.{CanonicalQuestion}
use tmx_assessment.Canonical.Slugs.{Unicode}
use tmx_assessment.Csv.Cells.{Cell, blank, invalid, given}

-- A row is none for the whole file.
pub record CsvIssue : Type 0 where
  pub row : Option ℕ
  pub column : Option String
  pub message : String

pub record CsvQuestionRow : Type 0 where
  pub row : ℕ
  pub question : CanonicalQuestion

pub record ParsedQuestionCsv : Type 0 where
  pub rows : List CsvQuestionRow
  pub errors : List CsvIssue
  pub warnings : List CsvIssue

abbrev pub option_columns : List String
option_columns = "option_a" ∷ "option_b" ∷ "option_c" ∷ "option_d" ∷ "option_e" ∷ "option_f" ∷ []

-- QUESTION_CSV_COLUMNS
abbrev pub csv_columns : List String
csv_columns =
    "ref" ∷ "section" ∷ "type" ∷ "difficulty" ∷ "instruction" ∷ "context" ∷ "stem" ∷ "media" ∷ []
    ++ option_columns
    ++ "correct" ∷ "rationale" ∷ "transcript" ∷ "shuffle_options" ∷ "keep_last_option_fixed"
      ∷ "scale_size" ∷ "scale_min_label" ∷ "scale_max_label" ∷ "employer_prompt"
      ∷ "employer_min_label" ∷ "employer_max_label" ∷ "employer_value" ∷ []

-- `replace(/[\s-]+/g, '_')`; the flag says that the run has its underscore.
unfoldable pub underscored : Bool → String → String
underscored in_run empty = empty
underscored in_run (cons c s) =
    let within = underscored true s in
    let outside = underscored false s in
    if is_space c || code c == 45
    then if in_run then within else append "_" within
    else cons c outside

abbrev pub issue_at : Option ℕ → String → String → CsvIssue
issue_at row column message = record { row = row; column = some column; message = message }

-- The columns of the header so far, with errors and warnings.
pub record Header : Type 0 where
  pub columns : Dict ℕ
  pub errors : List CsvIssue
  pub warnings : List CsvIssue

unfoldable pub add_column : Unicode → ℕ → String → Header → Header
unfolding underscored trim has set
add_column u index raw h =
    let name : String = underscored false (u.lower (trim raw)) in
    if not (filled name)
    then h
    else if not (any (λ c. c === name) csv_columns)
    then record h {
      warnings =
          h.warnings
          ++ issue_at (some 1) (trim raw) (
              append "The column \""
                (append (trim raw) "\" isn't one the import reads, so it's ignored."))
            ∷ [];
    }
    else if has name h.columns
    then record h {
      errors =
          h.errors
          ++ issue_at (some 1) name (append "The column \"" (append name "\" appears twice.")) ∷ [];
    }
    else record h { columns = set name index h.columns }

unfoldable pub read_header : Unicode → ℕ → List String → Header → Header
unfolding add_column
read_header u index [] h = h
read_header u index (raw ∷ raws) h = read_header u (suc index) raws (add_column u index raw h)

abbrev pub value_at : Option ℕ → List String → String
unfolding trim
value_at none values = ""
value_at (some at) values = elim (get_elem? values at) [ none ↦ "" | some value ↦ trim value ]

-- `cell`
unfoldable pub cell : Dict ℕ → List String → String → String
unfolding get value_at
cell columns values column = value_at (get column columns) values

abbrev pub is_invalid : {A : Type 0} → Cell A → Bool
is_invalid blank = false
is_invalid invalid = true
is_invalid (given a) = false

abbrev pub given_or_none : {A : Type 0} → Cell A → Option A
given_or_none (given a) = some a
given_or_none _ = none

abbrev pub given_or : {A : Type 0} → A → Cell A → A
given_or default (given a) = a
given_or default _ = default
