-- ===== src/Tests/Fixtures.antt =====
-- The fixtures: a test with two sections, one attempt at it, and its answers. Scores are fractions.
use tmx_assessment.Prelude.{ℕ, String, Bool, true, false, none, some, [], ◌∷◌}
use tmx_assessment.Prelude.Int.{ℤ, pos}
use tmx_assessment.Schema.{
  ScoringMethod, correct_answer, alignment, QuestionType, single_choice, rating_scale, shuffle_all,
  AttemptStatus, in_progress, submitted,
}
use tmx_assessment.Float.Fraction.{Fraction, whole}
use tmx_assessment.Canonical.Snapshot.{
  SnapshotSection, SnapshotOption, SnapshotQuestion, SnapshotBand, AssessmentSnapshot,
}
use tmx_assessment.Canonical.Scoring.Groups.{Answers}
use tmx_assessment.Take.Store.{Attempt, Invitation, Store}

abbrev option_of : String → ℤ → Bool → SnapshotOption
option_of id value is_correct = record {
  id = id;
  label = id;
  text = id;
  employer_text = none;
  value = some value;
  is_correct = is_correct;
}

abbrev question_of : String → String → QuestionType → SnapshotQuestion
question_of id section type = record {
  id = id;
  ref = none;
  section_id = some section;
  type = type;
  instruction = none;
  context = none;
  stem = "Stem";
  media = none;
  employer_prompt = none;
  employer_value = some (pos 3);
  difficulty = none;
  rationale = none;
  transcript = none;
  shuffle_options = true;
  keep_last_option_fixed = true;
  options =
      option_of "o1" (pos 1) true
      ∷ option_of "o2" (pos 2) false
      ∷ option_of "o3" (pos 3) false
      ∷ [];
}

abbrev pub first_question : SnapshotQuestion
first_question = question_of "q1" "s1" rating_scale

abbrev section_of : String → SnapshotSection Fraction
section_of id = record { id = id; name = id; weight = some (whole 2) }

abbrev pub low_band : SnapshotBand Fraction
low_band = record {
  min_score = whole 0;
  label = "Low";
  interpretation = none;
  recommended_action = none;
}

abbrev pub high_band : SnapshotBand Fraction
high_band = record {
  min_score = (3, 3);
  label = "High";
  interpretation = none;
  recommended_action = none;
}

abbrev snapshot_of : ScoringMethod → QuestionType → AssessmentSnapshot Fraction
snapshot_of method type = record {
  version = 1;
  assessment_id = "a1";
  slug = "test";
  name = "Test";
  tagline = none;
  instructions = none;
  duration_minutes = 15;
  scoring_method = method;
  question_order = shuffle_all;
  allow_back_navigation = true;
  audio_replays = 1;
  sections = section_of "s1" ∷ section_of "s2" ∷ [];
  questions =
      question_of "q1" "s1" type ∷ question_of "q2" "s2" type ∷ question_of "q3" "s1" type ∷ [];
  bands = low_band ∷ high_band ∷ [];
}

abbrev pub choice_test : AssessmentSnapshot Fraction
choice_test = snapshot_of correct_answer single_choice

abbrev pub scale_test : AssessmentSnapshot Fraction
scale_test = snapshot_of alignment rating_scale

abbrev pub some_answers : Answers
some_answers = ("q1", "o1") ∷ ("q2", "o2") ∷ []

abbrev attempt_in : AttemptStatus → Attempt Fraction
attempt_in status = record {
  id = "t1";
  invitation_id = "i1";
  assessment_id = "a1";
  order = 0;
  snapshot = choice_test;
  status = status;
  started_at = some 1000;
  deadline_at = some 901_000;
  finished_at = none;
  layout = none;
  score = none;
  band_label = none;
  correct_count = none;
  question_count = none;
  section_scores = [];
  flags = [];
  time_taken_seconds = none;
}

abbrev pub running : Attempt Fraction
running = attempt_in in_progress

abbrev pub finished : Attempt Fraction
finished = attempt_in submitted

abbrev pub link : Invitation
link = record {
  id = "i1";
  candidate_id = "c1";
  candidate_name = "Ada";
  sent_by_name = none;
  message = none;
  token_hash = "0123456789012345678901234567890123456789012";
  expires_at = 5000;
  sent_at = some 0;
  last_opened_at = none;
  revoked_at = none;
}

abbrev store_of : Attempt Fraction → Store Fraction ℕ
store_of attempt = record {
  attempts = attempt ∷ [];
  answers = record { attempt_id = "t1"; question_id = "q1"; option_id = "o1" } ∷ [];
  invitations = link ∷ [];
  random = 7;
}

abbrev pub running_store : Store Fraction ℕ
running_store = store_of running

abbrev pub finished_store : Store Fraction ℕ
finished_store = store_of finished
