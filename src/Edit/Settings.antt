-- ===== src/Edit/Settings.antt =====
-- assessments.service.ts: tests as a whole. `create`, `update`, `remove`, `uniqueSlug` and `exportDocument`.
-- The slug of a test is unique in the database, which refuses a second one.
pub mod Publishing
pub mod Slug
use Prim.Native.String.{◌++◌ as append, [] as empty, ◌∷◌ as cons}
use Prim.Native.Char.{code}
use tmx_assessment.Prelude.{
  ℕ, suc, ◌+◌, String, Bool, true, false, ◌&&◌, ◌||◌, not, ltb, ◌==◌, Option, none, some, List, [],
  ◌∷◌, ◌++◌, map, map_idx, filter, find?, any, length, if◌then◌else◌,
}
use tmx_assessment.Prelude.Text.{◌===◌, filled}
use tmx_assessment.Float.{Float}
use tmx_assessment.Http.{
  bad_request, not_found, conflict, Action, pure, gets, found_or, modify, throw_if, done, ◌>>=◌,
  ◌>>◌,
}
use tmx_assessment.Schema.{
  ScoringMethod, correct_answer, alignment, AssessmentStatus, draft, published, archived,
  QuestionOrder, fixed, QuestionRow, BandRow, AssessmentRow,
}
use tmx_assessment.Canonical.Questions.{nat_text}
use tmx_assessment.Canonical.Questions.Problems.{is_type_for, type_label}
use tmx_assessment.Canonical.Slugs.{slugify, slice_to, strip_end, or_fallback, first_free}
use tmx_assessment.Canonical.Mapper.{publish_problems}
use tmx_assessment.Take.Store.{update_many}
use tmx_assessment.Edit.Store.{
  StoredBand, Library, Runtime, content, is_section_of, is_question_of, is_band_of,
}
use tmx_assessment.Edit.Sections.{or_kept}

-- CreateAssessmentDto
pub record AssessmentInput : Type 0 where
  pub name : String
  pub slug : Option String
  pub tagline : Option String
  pub scoring_method : ScoringMethod
  pub duration_minutes : Option ℕ

-- UpdateAssessmentDto: a field that is left out is `none`.
pub record AssessmentPatch : Type 0 where
  pub name : Option String
  pub slug : Option String
  pub tagline : Option (Option String)
  pub description : Option (Option String)
  pub level : Option (Option String)
  pub relevant_for : Option (Option String)
  pub instructions : Option (Option String)
  pub duration_minutes : Option ℕ
  pub scoring_method : Option ScoringMethod
  pub status : Option AssessmentStatus
  pub question_order : Option QuestionOrder
  pub shuffle_options : Option Bool
  pub allow_back_navigation : Option Bool
  pub audio_replays : Option ℕ

abbrev pub is_correct_answer : ScoringMethod → Bool
is_correct_answer correct_answer = true
is_correct_answer alignment = false

abbrev pub same_method : ScoringMethod → ScoringMethod → Bool
same_method correct_answer correct_answer = true
same_method alignment alignment = true
same_method _ _ = false

abbrev pub is_published : AssessmentStatus → Bool
is_published published = true
is_published _ = false

abbrev pub publishes : Option AssessmentStatus → Bool
publishes none = false
publishes (some status) = is_published status

-- `startsWith`
unfoldable pub starts_with : String → String → Bool
starts_with empty s = true
starts_with (cons c p) empty = false
starts_with (cons c p) (cons d s) = code c == code d && starts_with p s

abbrev pub slug_taken : String → String
slug_taken slug =
    append "Another test already uses the slug \"" (append slug "\". Choose a different one.")

-- `[...new Set(names)]`: each name where it stands first.
unfoldable pub distinct : List String → List String
distinct [] = []
distinct (x ∷ xs) = x ∷ filter (λ y. not (y === x)) (distinct xs)

unfoldable pub join : String → List String → String
join separator [] = ""
join separator (x ∷ []) = x
join separator (x ∷ y ∷ ys) = append x (append separator (join separator (y ∷ ys)))

-- METHOD_LABELS
abbrev pub method_label : ScoringMethod → String
method_label correct_answer = "correct answers"
method_label alignment = "alignment"

-- `uniqueSlug`: a slug has 80 characters at most, of which four are kept for the number.
abbrev pub slug_root : String → String
slug_root base = or_fallback "test" (strip_end (slice_to 76 base))

abbrev pub misfits : ScoringMethod → List QuestionRow → List QuestionRow
misfits method questions = filter (λ q. not (is_type_for method q.type)) questions

abbrev pub some_question : ℕ → String
some_question n = if n == 1 then "question" else "questions"

unfoldable pub misfit_message :
    (lower : String → String) → ScoringMethod → List QuestionRow → String
unfolding distinct join nat_text
misfit_message lower method rows = append "This test has " (
    append (nat_text (length rows)) (
      append " " (
        append (join " and " (distinct (map (λ q. lower (type_label q.type)) rows))) (
          append " " (
            append (some_question (length rows)) (
              append ", which can’t be scored by " (
                append (method_label method)
                  ". Remove them first, or duplicate the test and change the copy.")))))))

abbrev pub sent_cannot_delete : String
sent_cannot_delete =
    "This test has been sent to candidates, so it can’t be deleted. Archive it instead."

module _ {F : Type 0} where
  abbrev pub slugs : Library F → List String
  slugs db = map (λ a. a.slug) db.tests

  unfoldable pub unique_slug : String → Library F → String
  unfolding starts_with first_free slice_to strip_end
  unique_slug base db =
      first_free (filter (starts_with (slug_root base)) (slugs db)) (slug_root base)

  abbrev pub chosen_slug : (slug : Option String) → (base : String) → Library F → String
  unfolding unique_slug
  chosen_slug none base db = unique_slug base db
  chosen_slug (some slug) base db = slug

  unfoldable pub patched_test : AssessmentPatch → AssessmentRow F → AssessmentRow F
  patched_test p a = record a {
    name = or_kept a.name p.name;
    slug = or_kept a.slug p.slug;
    tagline = or_kept a.tagline p.tagline;
    description = or_kept a.description p.description;
    level = or_kept a.level p.level;
    relevant_for = or_kept a.relevant_for p.relevant_for;
    instructions = or_kept a.instructions p.instructions;
    duration_minutes = or_kept a.duration_minutes p.duration_minutes;
    scoring_method = or_kept a.scoring_method p.scoring_method;
    status = or_kept a.status p.status;
    question_order = or_kept a.question_order p.question_order;
    shuffle_options = or_kept a.shuffle_options p.shuffle_options;
    allow_back_navigation = or_kept a.allow_back_navigation p.allow_back_navigation;
    audio_replays = or_kept a.audio_replays p.audio_replays;
  }

  -- Whether the unique index refuses the slug of a test.
  abbrev pub is_slug_used : String → Option String → Library F → Bool
  is_slug_used id none db = false
  is_slug_used id (some slug) db = any (λ a. not (a.id === id) && (a.slug === slug)) db.tests

  unfoldable pub update_test :
      Runtime → String → AssessmentPatch → Action (Library F) (AssessmentRow F)
  unfolding content is_type_for misfit_message publish_problems patched_test
  update_test rt id patch = do
    c ← content id
    throw_if
        (not (same_method (or_kept c.scoring_method patch.scoring_method) c.scoring_method)
          && ltb 0 (length (misfits (or_kept c.scoring_method patch.scoring_method) c.questions)))
        (bad_request (
          misfit_message rt.unicode.lower (or_kept c.scoring_method patch.scoring_method)
            (misfits (or_kept c.scoring_method patch.scoring_method) c.questions)
          ∷ []))
    throw_if
        (publishes patch.status
          && not (is_published c.status)
          && ltb 0 (length (publish_problems c)))
        (bad_request (publish_problems c))
    used ← gets (is_slug_used id patch.slug)
    throw_if used (conflict (slug_taken (or_kept c.slug patch.slug)))
    modify
        (λ db. record db { tests = update_many (λ a. a.id === id) (patched_test patch) db.tests })
    content id

  -- `delete`, which takes the sections, questions and bands with it.
  unfoldable pub delete_test : String → Library F → Library F
  delete_test id db = record db {
    tests = filter (λ a. not (a.id === id)) db.tests;
    sections = filter (λ s. not (is_section_of id s)) db.sections;
    questions = filter (λ q. not (is_question_of id q)) db.questions;
    bands = filter (λ b. not (is_band_of id b)) db.bands;
  }

  -- `sent` holds the test of each attempt.
  unfoldable pub remove_test : (sent : List String) → String → Action (Library F) (Unit {0})
  unfolding delete_test
  remove_test sent id = do
    known ← gets (λ db. any (λ a. a.id === id) db.tests)
    throw_if (not known) (not_found "That test doesn’t exist.")
    throw_if (any (λ test. test === id) sent) (conflict sent_cannot_delete)
    modify (delete_test id)

abbrev pub or_minutes : Option ℕ → ℕ
or_minutes none = 15
or_minutes (some minutes) = minutes

module _ (fl : Float) where
  open fl use {F, of_ℕ, div}

  abbrev pub band : ℕ → String → BandRow F
  band percent label = record {
    min_score = div (of_ℕ percent) (of_ℕ 100);
    label = label;
    interpretation = none;
    recommended_action = none;
  }

  -- DEFAULT_BANDS; a double nearest to a decimal number is what division rounds to.
  unfoldable pub default_bands : ScoringMethod → List (BandRow F)
  default_bands correct_answer =
      band 85 "Strong"
      ∷ band 65 "Competent"
      ∷ band 45 "Developing"
      ∷ band 0 "Needs development"
      ∷ []
  default_bands alignment =
      band 85 "Strong fit" ∷ band 70 "Good fit" ∷ band 55 "Partial fit" ∷ band 0 "Low fit" ∷ []

  unfoldable pub new_test : String → String → AssessmentInput → AssessmentRow F
  new_test id slug input = record {
    id = id;
    slug = slug;
    name = input.name;
    tagline = input.tagline;
    description = none;
    level = none;
    relevant_for = none;
    instructions = none;
    duration_minutes = or_minutes input.duration_minutes;
    scoring_method = input.scoring_method;
    status = draft;
    question_order = fixed;
    shuffle_options = is_correct_answer input.scoring_method;
    allow_back_navigation = true;
    audio_replays = 1;
    sections = [];
    questions = [];
    bands = [];
  }

  abbrev pub stored_band : String → ℕ → BandRow F → StoredBand F
  stored_band test order row = record { assessment_id = test; order = order; row = row }

  unfoldable pub insert_test : Runtime → String → AssessmentInput → Library F → Library F
  unfolding new_test default_bands
  insert_test rt slug input db = record db {
    tests = db.tests ++ new_test (rt.row_id db.drawn) slug input ∷ [];
    bands =
        db.bands ++ map_idx (stored_band (rt.row_id db.drawn)) (default_bands input.scoring_method);
    drawn = suc db.drawn;
  }

  unfoldable pub create_test : Runtime → AssessmentInput → Action (Library F) (AssessmentRow F)
  unfolding content slugify insert_test
  create_test rt input = do
    slug ← gets (chosen_slug input.slug (slugify rt.unicode input.name "test"))
    used ← gets (λ db. any (λ t. t === slug) (slugs db))
    throw_if used (conflict (slug_taken slug))
    id ← gets (λ db. rt.row_id db.drawn)
    modify (insert_test rt slug input)
    content id
