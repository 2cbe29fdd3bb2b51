-- ===== src/Edit/Files.antt =====
-- questions.service.ts: a file of questions is read into a test, or written from one (`importCsv`,
-- `exportCsv`). The file is its text: `decodeCsv` is a call of the platform's decoder.
use Prim.Native.String.{◌++◌ as append}
use mathlib.Core.Option
use tmx_assessment.Prelude.{
  ℕ, suc, String, Bool, true, false, not, ltb, Option, none, some, List, [], ◌∷◌, ◌++◌, map, filter,
  find?, length, if◌then◌else◌,
}
use tmx_assessment.Prelude.Text.{◌===◌, filled}
use tmx_assessment.Prelude.Dict.{Dict, set}
use tmx_assessment.Http.{bad_request, Action, pure, gets, modify, throw_if, ◌>>=◌, ◌>>◌}
use tmx_assessment.Schema.{QuestionRow, SectionRow, AssessmentRow}
use tmx_assessment.Canonical.Questions.{CanonicalQuestion, normalize_question}
use tmx_assessment.Canonical.Mapper.{QuestionLinks, to_canonical_question}
use tmx_assessment.Csv.Header.{CsvQuestionRow}
use tmx_assessment.Csv.Rows.{parse_question_csv}
use tmx_assessment.Csv.Writing.{questions_to_csv}
use tmx_assessment.Edit.Store.{Library, Runtime, content, next_order, is_question_of}
use tmx_assessment.Edit.Sections.{insert_section}
use tmx_assessment.Edit.Questions.{insert_question}
use tmx_assessment.Edit.Import.{FoundMedia, MediaLookup, media_lookup}
use tmx_assessment.Edit.Previews.{
  ImportMode, ImportResult, is_replacing, describe_issue, section_ids, section_of, planned_import,
}

abbrev pub media_ids : List QuestionRow → List String
media_ids [] = []
media_ids (q ∷ qs) = elim q.media_id [ none ↦ [] | some id ↦ id ∷ [] ] ++ media_ids qs

module _ {F : Type 0} (rt : Runtime) where
  -- The loop over the sections to create; the map takes their names to their ids.
  unfoldable pub create_sections :
      String → ℕ → List String → Dict String × Library F → Dict String × Library F
  unfolding insert_section set
  create_sections test order [] state = state
  create_sections test order (name ∷ names) (ids, db) = create_sections test (suc order) names (
    set (rt.unicode.lower name) (rt.row_id db.drawn) ids,
    insert_section rt test order (record { name = name; description = none; weight = none }) db,
  )

  unfoldable pub create_questions :
      String → MediaLookup → Dict String → ℕ → List CsvQuestionRow → Library F → Library F
  unfolding insert_question
  create_questions test lookup ids order [] db = db
  create_questions test lookup ids order (r ∷ rs) db =
      let found : FoundMedia = lookup r.question.media in
      let links : QuestionLinks = record {
        section_id = section_of rt.unicode ids r.question.section;
        media_id = found.media_id;
        media_file_name = found.media_file_name;
      } in
      create_questions test lookup ids (suc order) rs
        (insert_question rt.row_id test order r.question links db)

  abbrev pub delete_questions : String → Library F → Library F
  delete_questions test db = record db {
    questions = filter (λ q. not (is_question_of test q)) db.questions;
  }

  -- The transaction of `importCsv`
  unfoldable pub write_rows :
      ImportMode
      → AssessmentRow F
      → MediaLookup
      → List String
      → List CsvQuestionRow
      → Library F
      → Library F
  unfolding create_sections create_questions section_ids next_order
  write_rows mode c lookup names rows db =
      let kept : Library F = if is_replacing mode then delete_questions c.id db else db in
      let sections : Dict String × Library F =
        create_sections c.id (next_order (λ s. s.order) c.sections) names
          (section_ids rt.unicode [] c.sections, kept) in
      create_questions c.id lookup sections.0
        (if is_replacing mode then 0 else next_order (λ q. q.order) c.questions) rows sections.1

  -- An import that is no dry run: refused with what is wrong, or written.
  unfoldable pub carry_out :
      AssessmentRow F
      → MediaLookup
      → List CsvQuestionRow
      → ImportResult F
      → Action (Library F) (ImportResult F)
  unfolding content write_rows describe_issue
  carry_out c lookup rows plan = do
    throw_if (ltb 0 (length plan.errors)) (bad_request (map describe_issue plan.errors))
    modify (write_rows plan.mode c lookup plan.new_sections rows)
    after ← content c.id
    pure (record plan { imported_count = length rows; assessment = some after })

  abbrev pub unless_dry :
      Bool
      → ImportResult F
      → Action (Library F) (ImportResult F)
      → Action (Library F) (ImportResult F)
  unless_dry true plan action = pure plan
  unless_dry false plan action = action

  unfoldable pub import_csv :
      String → String → ImportMode → Bool → Action (Library F) (ImportResult F)
  unfolding content parse_question_csv media_lookup planned_import carry_out
  import_csv test text mode dry_run = do
    c ← content test
    lookup ← gets (λ db. media_lookup (media_ids c.questions) db.media)
    parsed ← pure (parse_question_csv rt.unicode text c.scoring_method)
    plan ← pure (planned_import rt dry_run mode c lookup parsed)
    unless_dry dry_run plan (carry_out c lookup parsed.rows plan)

-- What `exportCsv` gives: a file name and its text.
pub record ExportedFile : Type 0 where
  pub filename : String
  pub text : String

module _ {F : Type 0} where
  abbrev pub named_section : List (SectionRow F) → Option String → Option String
  named_section sections none = none
  named_section sections (some id) =
      if filled id then Option.map (λ s. s.name) (find? (λ s. s.id === id) sections) else none

  unfoldable pub exported_question : List (SectionRow F) → QuestionRow → CanonicalQuestion
  unfolding normalize_question to_canonical_question
  exported_question sections q =
      normalize_question (to_canonical_question q (named_section sections q.section_id))

  unfoldable pub export_csv : String → Action (Library F) ExportedFile
  unfolding content questions_to_csv exported_question
  export_csv test = do
    c ← content test
    pure (record {
      filename = append c.slug "-questions.csv";
      text = questions_to_csv (map (exported_question c.sections) c.questions);
    })
