-- ===== src/Edit/Previews.antt =====
-- questions.service.ts: what the import of a file of questions reports before it is written.
use Prim.Native.String.{◌++◌ as append}
use tmx_assessment.Prelude.{
  ℕ, ◌+◌, String, Bool, true, false, ◌&&◌, not, ltb, Option, none, some, List, [], ◌∷◌, ◌++◌, map,
  find?, any, concat, length, if◌then◌else◌,
}
use tmx_assessment.Prelude.Text.{◌===◌, filled}
use tmx_assessment.Prelude.Dict.{Dict, get, set}
use tmx_assessment.Prelude.Sort.{sort}
use tmx_assessment.Schema.{QuestionType, SectionRow, AssessmentRow}
use tmx_assessment.Canonical.Questions.{CanonicalOption, CanonicalQuestion, nat_text}
use tmx_assessment.Canonical.Slugs.{Unicode, slugify}
use tmx_assessment.Csv.Header.{CsvIssue, CsvQuestionRow, ParsedQuestionCsv, issue_at}
use tmx_assessment.Csv.Rows.{whole_file}
use tmx_assessment.Csv.Options.{or_empty}
use tmx_assessment.Edit.Store.{Runtime}
use tmx_assessment.Edit.Sections.{max_sections}
use tmx_assessment.Edit.Questions.{max_questions}
use tmx_assessment.Edit.Import.{FoundMedia, MediaLookup, file_of}

pub data ImportMode : Type 0 where
  append_rows : ImportMode
  replace_all : ImportMode

-- CsvPreviewRowDto
pub record CsvPreviewRow : Type 0 where
  pub row : ℕ
  pub ref : Option String
  pub section : Option String
  pub type : QuestionType
  pub stem : String
  pub option_count : ℕ
  pub correct_label : Option String
  pub media : Option String
  pub media_found : Option Bool

-- QuestionImportResultDto
pub record ImportResult (F : Type 0) : Type 0 where
  pub dry_run : Bool
  pub mode : ImportMode
  pub row_count : ℕ
  pub imported_count : ℕ
  pub new_sections : List String
  pub errors : List CsvIssue
  pub warnings : List CsvIssue
  pub preview : List CsvPreviewRow
  pub assessment : Option (AssessmentRow F)

abbrev pub is_replacing : ImportMode → Bool
is_replacing append_rows = false
is_replacing replace_all = true

abbrev pub row_or_zero : CsvIssue → ℕ
row_or_zero i = elim i.row [ none ↦ 0 | some row ↦ row ]

-- `byRow`
abbrev pub by_row : CsvIssue → CsvIssue → Bool
by_row a b = ltb (row_or_zero a) (row_or_zero b)

abbrev pub in_column : Option String → String
in_column none = ""
in_column (some column) = if filled column then append ", " column else ""

unfoldable pub describe_issue : CsvIssue → String
unfolding nat_text
describe_issue i =
    append (elim i.row [ none ↦ "The file" | some row ↦ append "Row " (nat_text row) ])
      (append (in_column i.column) (append ": " i.message))

module _ (u : Unicode) where
  -- The ids of the sections, by their names and by their keys
  unfoldable pub section_ids : {F : Type 0} → Dict String → List (SectionRow F) → Dict String
  unfolding set slugify
  section_ids ids [] = ids
  section_ids ids (s ∷ ss) =
      section_ids (set (slugify u s.name "item") s.id (set (u.lower s.name) s.id ids)) ss

  unfoldable pub section_for : Dict String → String → Option String
  unfolding get slugify
  section_for ids name = elim (get (u.lower name) ids) [
    | some id ↦ some id
    | none ↦ get (slugify u name "item") ids
  ]

  abbrev pub is_found : Option String → Bool
  is_found none = false
  is_found (some id) = true

  abbrev pub is_new_section : Dict String → List String → String → Bool
  unfolding section_for
  is_new_section ids found name =
      filled name
      && not (is_found (section_for ids name))
      && not (any (λ n. u.lower n === u.lower name) found)

  -- The names of the sections to create and the warnings on them, after those found so far
  unfoldable pub new_sections :
      Dict String → List CsvQuestionRow → List String × List CsvIssue → List String × List CsvIssue
  unfolding is_new_section
  new_sections ids [] found = found
  new_sections ids (r ∷ rs) (names, warnings) = elim r.question.section [
    | none ↦ new_sections ids rs (names, warnings)
    | some name ↦
        let next : List String × List CsvIssue =
          if is_new_section ids names name
          then (
            names ++ name ∷ [],
            warnings
                ++ issue_at (some r.row) "section"
                    (append "Creates a new section, \"" (append name "\"."))
                  ∷ [],
          )
          else (names, warnings) in
        new_sections ids rs next
  ]

  abbrev pub section_of : Dict String → Option String → Option String
  unfolding section_for
  section_of ids none = none
  section_of ids (some name) = if filled name then section_for ids name else none

abbrev pub media_found_by : MediaLookup → CanonicalQuestion → Option Bool
media_found_by lookup q = elim (file_of q.media) [
  | none ↦ none
  | some file ↦
      let found : FoundMedia = lookup q.media in
      if filled file then some (elim found.media_id [ none ↦ false | some id ↦ true ]) else none
]

abbrev pub label_of : Option CanonicalOption → Option String
label_of none = none
label_of (some o) = o.label

unfoldable pub preview_row : MediaLookup → CsvQuestionRow → CsvPreviewRow
preview_row lookup r = record {
  row = r.row;
  ref = r.question.ref;
  section = r.question.section;
  type = r.question.type;
  stem = r.question.stem;
  option_count = length r.question.options;
  correct_label = label_of (find? (λ o. o.correct) r.question.options);
  media = file_of r.question.media;
  media_found = media_found_by lookup r.question;
}

-- The warning on a row whose file is not uploaded yet
abbrev pub media_warning : CsvPreviewRow → List CsvIssue
media_warning p = elim p.media_found [
  | none ↦ []
  | some true ↦ []
  | some false ↦
      issue_at (some p.row) "media" (
        append "No uploaded file is called \""
          (append (or_empty p.media) "\" yet. Upload it on the question after importing."))
      ∷ []
]

abbrev pub too_many_questions : ℕ → List CsvIssue
unfolding nat_text
too_many_questions total =
    if ltb max_questions total
    then whole_file (
        append "A test can hold up to 100 questions, and this import would make "
          (append (nat_text total) "."))
      ∷ []
    else []

abbrev pub too_many_sections : ℕ → List CsvIssue
unfolding nat_text
too_many_sections total =
    if ltb max_sections total
    then whole_file (
        append "A test can have up to 20 sections, and this import would make "
          (append (nat_text total) "."))
      ∷ []
    else []

module _ {F : Type 0} (rt : Runtime) where
  -- What an import reports before anything is written
  unfoldable pub planned_import :
      Bool → ImportMode → AssessmentRow F → MediaLookup → ParsedQuestionCsv → ImportResult F
  unfolding section_ids new_sections preview_row sort
  planned_import dry_run mode c lookup parsed =
      let found : List String × List CsvIssue =
        new_sections rt.unicode (section_ids rt.unicode [] c.sections) parsed.rows
          ([], parsed.warnings) in
      let preview : List CsvPreviewRow = map (preview_row lookup) parsed.rows in
      record {
        dry_run = dry_run;
        mode = mode;
        row_count = length parsed.rows;
        imported_count = 0;
        new_sections = found.0;
        errors =
            parsed.errors
            ++ too_many_questions
                ((if is_replacing mode then 0 else length c.questions) + length parsed.rows)
            ++ too_many_sections (length c.sections + length found.0);
        warnings = sort by_row (found.1 ++ concat (map media_warning preview));
        preview = preview;
        assessment = none;
      }
