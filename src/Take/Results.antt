-- ===== src/Take/Results.antt =====
-- invitation.mapper.ts: the result of a test as staff see it. The answers, the sections and the flags are
-- shown once the test is finished.
use tmx_assessment.Prelude.{
  ℕ, suc, ◌+◌, String, Bool, false, Option, none, some, List, [], ◌∷◌, map, find?, length,
  if◌then◌else◌,
}
use mathlib.Core.Option
use tmx_assessment.Prelude.Int.{ℤ}
use tmx_assessment.Prelude.Text.{◌===◌, filled}
use tmx_assessment.Prelude.Dict.{Dict, get, from_entries}
use tmx_assessment.Schema.{ScoringMethod, QuestionType, AttemptStatus}
use tmx_assessment.Canonical.Rules.{is_scale}
use tmx_assessment.Canonical.Snapshot.{
  SnapshotOption, SnapshotQuestion, SnapshotBand, AssessmentSnapshot,
}
use tmx_assessment.Canonical.Scoring.Groups.{Answers, SectionScore, AlignmentFlag}
use tmx_assessment.Take.Store.{Attempt, Answer}
use tmx_assessment.Take.View.{same_value}
use tmx_assessment.Take.Status.{is_finished}

pub record AttemptSummary (F : Type 0) : Type 0 where
  pub id : String
  pub assessment_id : String
  pub name : String
  pub status : AttemptStatus
  pub score : Option F
  pub band_label : Option String
  pub started_at : Option ℕ
  pub finished_at : Option ℕ

pub record Shown : Type 0 where
  pub label : String
  pub text : String

pub record AnswerReview : Type 0 where
  pub question_id : String
  pub number : ℕ
  pub ref : Option String
  pub section : Option String
  pub type : QuestionType
  pub stem : String
  pub chosen : Option Shown
  pub expected : Option Shown
  pub is_correct : Option Bool
  pub candidate_value : Option ℤ
  pub employer_value : Option ℤ

pub record AttemptResult (F : Type 0) : Type 0 where
  pub summary : AttemptSummary F
  pub tagline : Option String
  pub scoring_method : ScoringMethod
  pub duration_minutes : ℕ
  pub question_count : ℕ
  pub answered_count : ℕ
  pub deadline_at : Option ℕ
  pub time_taken_seconds : Option ℕ
  pub correct_count : Option ℕ
  pub band : Option (SnapshotBand F)
  pub sections : List (SectionScore F)
  pub flags : List AlignmentFlag
  pub answers : List AnswerReview

-- `a || b` of two strings
abbrev pub or_text : String → String → String
or_text a b = if filled a then a else b

-- `a || b`, where `a` can be null
abbrev pub or_else_text : Option String → String → String
or_else_text none b = b
or_else_text (some a) b = or_text a b

abbrev pub has_id : String → SnapshotOption → Bool
has_id id o = o.id === id

-- The option a candidate chose
unfoldable pub picked : Option String → List SnapshotOption → Option SnapshotOption
picked none options = none
picked (some id) options = find? (has_id id) options

-- The option the review expects: the role profile's on a scale, and otherwise the correct one.
unfoldable pub expected_option : SnapshotQuestion → Option SnapshotOption
unfolding is_scale
expected_option q =
    if is_scale q.type
    then find? (λ o. same_value o.value q.employer_value) q.options
    else find? (λ o. o.is_correct) q.options

abbrev pub show_chosen : SnapshotOption → Shown
show_chosen o = record { label = o.label; text = or_text o.text o.label }

abbrev pub show_expected : Bool → SnapshotOption → Shown
show_expected scale o = record {
  label = o.label;
  text = or_text (if scale then or_else_text o.employer_text o.text else o.text) o.label;
}

abbrev pub is_right : Option SnapshotOption → Bool
is_right none = false
is_right (some o) = o.is_correct

abbrev pub value_of : Option SnapshotOption → Option ℤ
value_of none = none
value_of (some o) = o.value

-- An empty section id counts as none.
abbrev pub section_name : Dict String → Option String → Option String
section_name sections none = none
section_name sections (some id) = if filled id then get id sections else none

unfoldable pub review : SnapshotQuestion → ℕ → Option String → Dict String → AnswerReview
unfolding is_scale picked expected_option get
review q index chosen_id sections =
    let scale : Bool = is_scale q.type in
    let option : Option SnapshotOption = picked chosen_id q.options in
    record {
      question_id = q.id;
      number = index + 1;
      ref = q.ref;
      section = section_name sections q.section_id;
      type = q.type;
      stem = q.stem;
      chosen = Option.map show_chosen option;
      expected = Option.map (show_expected scale) (expected_option q);
      is_correct = if scale then none else some (is_right option);
      candidate_value = if scale then value_of option else none;
      employer_value = if scale then q.employer_value else none;
    }

unfoldable pub reviews : Answers → Dict String → ℕ → List SnapshotQuestion → List AnswerReview
unfolding review get
reviews chosen sections index [] = []
reviews chosen sections index (q ∷ qs) =
    review q index (get q.id chosen) sections ∷ reviews chosen sections (suc index) qs

abbrev pub chosen_answers : List Answer → Answers
chosen_answers answers = from_entries [] (map (λ a. (a.question_id, a.option_id)) answers)

module _ {F : Type 0} where
  unfoldable pub attempt_summary : Attempt F → String → AttemptSummary F
  attempt_summary attempt name = record {
    id = attempt.id;
    assessment_id = attempt.assessment_id;
    name = name;
    status = attempt.status;
    score = attempt.score;
    band_label = attempt.band_label;
    started_at = attempt.started_at;
    finished_at = attempt.finished_at;
  }

  -- The band of the label, if the label is not empty.
  abbrev pub band_of : Option String → List (SnapshotBand F) → Option (SnapshotBand F)
  band_of none bands = none
  band_of (some label) bands = if filled label then find? (λ b. b.label === label) bands else none

  abbrev pub section_names : AssessmentSnapshot F → Dict String
  section_names snapshot = from_entries [] (map (λ s. (s.id, s.name)) snapshot.sections)

  -- `answers` are those of the attempt.
  unfoldable pub attempt_result : Attempt F → List Answer → AttemptResult F
  unfolding attempt_summary is_finished reviews from_entries
  attempt_result attempt answers =
      let snapshot : AssessmentSnapshot F = attempt.snapshot in
      let finished : Bool = is_finished attempt.status in
      record {
        summary = attempt_summary attempt snapshot.name;
        tagline = snapshot.tagline;
        scoring_method = snapshot.scoring_method;
        duration_minutes = snapshot.duration_minutes;
        question_count = length snapshot.questions;
        answered_count = length answers;
        deadline_at = attempt.deadline_at;
        time_taken_seconds = attempt.time_taken_seconds;
        correct_count = attempt.correct_count;
        band = band_of attempt.band_label snapshot.bands;
        sections = if finished then attempt.section_scores else [];
        flags = if finished then attempt.flags else [];
        answers =
            if finished
            then reviews (chosen_answers answers) (section_names snapshot) 0 snapshot.questions
            else [];
      }
