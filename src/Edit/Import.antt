-- ===== src/Edit/Import.antt =====
-- assessment-import.service.ts: canonical documents are written to the database, for import and for the
-- duplicates of tests (assessments.service.ts: `duplicate`, `exportDocument`, `importDocument`).
use Prim.Native.String.{◌++◌ as append}
use tmx_assessment.Prelude.{
  ℕ, suc, String, Bool, true, false, ◌&&◌, not, ltb, Option, none, some, List, [], ◌∷◌, ◌++◌, map,
  map_idx, any, length, if◌then◌else◌,
}
use tmx_assessment.Prelude.Text.{◌===◌, filled, trim}
use tmx_assessment.Prelude.Dict.{Dict, get, set}
use tmx_assessment.Float.{Float}
use tmx_assessment.Http.{bad_request, conflict, Action, pure, gets, modify, throw_if, ◌>>=◌, ◌>>◌}
use tmx_assessment.Schema.{MediaRow, AssessmentStatus, draft, AssessmentRow, BandRow}
use tmx_assessment.Canonical.Questions.{
  CanonicalMedia, CanonicalQuestion, blank_to_null, normalize_question,
}
use tmx_assessment.Canonical.Slugs.{slice_to}
use tmx_assessment.Canonical.Mapper.{
  CanonicalSection, CanonicalBand, CanonicalAssessment, QuestionLinks, to_canonical_assessment,
}
use tmx_assessment.Canonical.Documents.{document_problems}
use tmx_assessment.Edit.Store.{StoredSection, Library, Runtime, content}
use tmx_assessment.Edit.Questions.{insert_question}
use tmx_assessment.Edit.Settings.{slugs, unique_slug, stored_band}

-- `{ mediaId, mediaFileName }`
pub record FoundMedia : Type 0 where
  pub media_id : Option String
  pub media_file_name : Option String

abbrev pub MediaLookup : Type 0
MediaLookup = Option CanonicalMedia → FoundMedia

abbrev pub found_file : String → FoundMedia
found_file id = record { media_id = some id; media_file_name = none }

abbrev pub missing_file : Option String → FoundMedia
missing_file file = record { media_id = none; media_file_name = file }

abbrev pub file_of : Option CanonicalMedia → Option String
file_of none = none
file_of (some media) = media.file

abbrev pub asset_of : Option CanonicalMedia → Option String
asset_of none = none
asset_of (some media) = media.asset_id

-- The loop over the files found by name, newest first: the first of a name, or the first that the test
-- already uses.
abbrev pub prefers : List String → String → Option String → Bool
prefers preferred id none = true
prefers preferred id (some current) =
    any (λ p. p === id) preferred && not (any (λ p. p === current) preferred)

unfoldable pub named_files : List String → Dict String → List MediaRow → Dict String
unfolding get set
named_files preferred named [] = named
named_files preferred named (m ∷ ms) =
    let next : Dict String =
      if prefers preferred m.id (get m.original_name named)
      then set m.original_name m.id named
      else named in
    named_files preferred next ms

abbrev pub match_of : Dict String → Option String → Option String
unfolding get
match_of named none = none
match_of named (some file) = get file named

abbrev pub by_match : Option String → Option String → FoundMedia
by_match file none = missing_file file
by_match file (some id) = found_file id

abbrev pub is_known_asset : List MediaRow → Option String → Bool
is_known_asset media none = false
is_known_asset media (some id) = filled id && any (λ m. m.id === id) media

-- `mediaLookup`; the files of the library are in their order of creation, newest first.
unfoldable pub media_lookup : List String → List MediaRow → MediaLookup
unfolding named_files blank_to_null
media_lookup preferred files media =
    if is_known_asset files (asset_of media)
    then record { media_id = asset_of media; media_file_name = none }
    else by_match (blank_to_null (file_of media))
        (match_of (named_files preferred [] files) (blank_to_null (file_of media)))

abbrev pub section_id_of : (lower : String → String) → Dict String → Option String → Option String
unfolding get
section_id_of lower ids none = none
section_id_of lower ids (some section) = get (lower section) ids

module _ {F : Type 0} (rt : Runtime) where
  -- The loop over a document's sections; the map takes their keys and names to their ids.
  unfoldable pub write_sections :
      String → ℕ → List (CanonicalSection F) → Dict String × Library F → Dict String × Library F
  unfolding trim blank_to_null set
  write_sections test order [] state = state
  write_sections test order (s ∷ ss) (ids, db) =
      let id : String = rt.row_id db.drawn in
      let row : StoredSection F = record {
        assessment_id = test;
        row = record {
          id = id;
          name = trim s.name;
          description = blank_to_null s.description;
          order = order;
          weight = s.weight;
        };
      } in
      write_sections test (suc order) ss (
        set (rt.unicode.lower (trim s.name)) id (set (rt.unicode.lower s.key) id ids),
        record db { sections = db.sections ++ row ∷ []; drawn = suc db.drawn },
      )

  unfoldable pub write_questions :
      String → MediaLookup → Dict String → ℕ → List CanonicalQuestion → Library F → Library F
  unfolding normalize_question insert_question
  write_questions test lookup ids order [] db = db
  write_questions test lookup ids order (raw ∷ raws) db =
      let q : CanonicalQuestion = normalize_question raw in
      let found : FoundMedia = lookup q.media in
      let links : QuestionLinks = record {
        section_id = section_id_of rt.unicode.lower ids q.section;
        media_id = found.media_id;
        media_file_name = found.media_file_name;
      } in
      write_questions test lookup ids (suc order) raws
        (insert_question rt.row_id test order q links db)

abbrev pub written_band : {F : Type 0} → CanonicalBand F → BandRow F
unfolding trim blank_to_null
written_band b = record {
  min_score = b.min_score;
  label = trim b.label;
  interpretation = blank_to_null b.interpretation;
  recommended_action = blank_to_null b.recommended_action;
}

module _ (fl : Float) (rt : Runtime) where
  open fl use {F}

  unfoldable pub write_content :
      String → CanonicalAssessment F → MediaLookup → Library F → Library F
  unfolding write_sections write_questions
  write_content test d lookup db =
      let sections : Dict String × Library F = write_sections rt test 0 d.sections ([], db) in
      let written : Library F =
        write_questions rt test lookup sections.0 0 d.questions sections.1 in
      record written {
        bands = written.bands ++ map_idx (stored_band fl test) (map written_band d.bands);
      }

  -- `settingsOf`, with the id and the status
  unfoldable pub settings_of : String → AssessmentStatus → CanonicalAssessment F → AssessmentRow F
  unfolding trim blank_to_null
  settings_of id status d = record {
    id = id;
    slug = d.slug;
    name = trim d.name;
    tagline = blank_to_null d.tagline;
    description = blank_to_null d.description;
    level = blank_to_null d.level;
    relevant_for = blank_to_null d.relevant_for;
    instructions = blank_to_null d.instructions;
    duration_minutes = d.duration_minutes;
    scoring_method = d.scoring_method;
    status = status;
    question_order = d.question_order;
    shuffle_options = d.shuffle_options;
    allow_back_navigation = d.allow_back_navigation;
    audio_replays = d.audio_replays;
    sections = [];
    questions = [];
    bands = [];
  }

  abbrev pub slug_exists : String → String
  slug_exists slug =
      append "A test with the slug \""
        (append slug "\" already exists. Change the slug and import again.")

  -- `create`: the id of the new test
  unfoldable pub import_document :
      CanonicalAssessment F → AssessmentStatus → Action (Library F) String
  unfolding document_problems settings_of write_content media_lookup
  import_document d status = do
    throw_if (ltb 0 (length (document_problems fl rt.unicode d)))
        (bad_request (document_problems fl rt.unicode d))
    used ← gets (λ db. any (λ s. s === d.slug) (slugs db))
    throw_if used (conflict (slug_exists d.slug))
    id ← gets (λ db. rt.row_id db.drawn)
    lookup ← gets (λ db. media_lookup [] db.media)
    modify
        (λ db. record db { tests = db.tests ++ settings_of id status d ∷ []; drawn = suc db.drawn })
    modify (write_content id d lookup)
    pure id

  -- `exportDocument`
  unfoldable pub export_document : String → Action (Library F) (CanonicalAssessment F)
  unfolding content to_canonical_assessment
  export_document id = do c ← content id; pure (to_canonical_assessment fl rt.unicode c)

  -- `duplicate` of a whole test
  unfoldable pub duplicate_test : String → Action (Library F) (AssessmentRow F)
  unfolding content export_document unique_slug slice_to import_document
  duplicate_test id = do
    d ← export_document id
    slug ← gets (unique_slug (append d.slug "-copy"))
    copy ←
        import_document (record d { slug = slug; name = slice_to 120 (append d.name " (copy)") })
          draft
    content copy
