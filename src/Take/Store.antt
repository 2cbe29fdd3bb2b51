-- ===== src/Take/Store.antt =====
-- The rows of attempts, answers and links, and the statements that write them. Each statement is atomic
-- in the database, and says on which rows it applies.
use tmx_assessment.Prelude.{
  ℕ, String, Bool, ◌&&◌, Option, some, List, [], ◌∷◌, map, find?, if◌then◌else◌,
}
use tmx_assessment.Prelude.Text.{◌===◌}
use tmx_assessment.Schema.{AttemptStatus, in_progress, is_in_progress, is_not_started}
use tmx_assessment.Canonical.Snapshot.{AssessmentSnapshot}
use tmx_assessment.Canonical.Scoring.Groups.{SectionScore, AlignmentFlag}
use tmx_assessment.Canonical.Layout.{AttemptLayout}

pub record Attempt (F : Type 0) : Type 0 where
  pub id : String
  pub invitation_id : String
  pub assessment_id : String
  pub order : ℕ
  pub snapshot : AssessmentSnapshot F
  pub status : AttemptStatus
  pub started_at : Option ℕ
  pub deadline_at : Option ℕ
  pub finished_at : Option ℕ
  pub layout : Option AttemptLayout
  pub score : Option F
  pub band_label : Option String
  pub correct_count : Option ℕ
  pub question_count : Option ℕ
  pub section_scores : List (SectionScore F)
  pub flags : List AlignmentFlag
  pub time_taken_seconds : Option ℕ

pub record Answer : Type 0 where
  pub attempt_id : String
  pub question_id : String
  pub option_id : String

pub record Invitation : Type 0 where
  pub id : String
  pub candidate_id : String
  pub candidate_name : String
  pub sent_by_name : Option String
  pub message : Option String
  pub token_hash : String
  pub expires_at : ℕ
  pub sent_at : Option ℕ
  pub last_opened_at : Option ℕ
  pub revoked_at : Option ℕ

-- The tables, and the state of the random source.
pub record Store (F R : Type 0) : Type 0 where
  pub attempts : List (Attempt F)
  pub answers : List Answer
  pub invitations : List Invitation
  pub random : R

-- What `finish` writes over an attempt.
pub record Closing (F : Type 0) : Type 0 where
  pub status : AttemptStatus
  pub finished_at : ℕ
  pub score : F
  pub band_label : Option String
  pub correct_count : Option ℕ
  pub question_count : ℕ
  pub section_scores : List (SectionScore F)
  pub flags : List AlignmentFlag
  pub time_taken_seconds : Option ℕ

-- `updateMany({ where, data })`
abbrev pub update_many {ℓ} : {A : Type ℓ} → (A → Bool) → (A → A) → List A → List A
update_many where' change rows = map (λ a. if where' a then change a else a) rows

abbrev pub is_answer : String → String → Answer → Bool
is_answer attempt_id question_id a = a.attempt_id === attempt_id && a.question_id === question_id

-- `upsert` on the attempt and the question
unfoldable pub upsert_answer : String → String → String → List Answer → List Answer
upsert_answer attempt_id question_id option_id [] =
    record { attempt_id = attempt_id; question_id = question_id; option_id = option_id } ∷ []
upsert_answer attempt_id question_id option_id (a ∷ answers) =
    if is_answer attempt_id question_id a
    then record a { option_id = option_id } ∷ answers
    else a ∷ upsert_answer attempt_id question_id option_id answers

module _ {F : Type 0} where
  abbrev pub opened : ℕ → ℕ → AttemptLayout → Attempt F → Attempt F
  opened now deadline layout a = record a {
    status = in_progress;
    started_at = some now;
    deadline_at = some deadline;
    layout = some layout;
  }

  abbrev pub closed : Closing F → Attempt F → Attempt F
  closed c a = record a {
    status = c.status;
    finished_at = some c.finished_at;
    score = some c.score;
    band_label = c.band_label;
    correct_count = c.correct_count;
    question_count = some c.question_count;
    section_scores = c.section_scores;
    flags = c.flags;
    time_taken_seconds = c.time_taken_seconds;
  }

  -- Opens an attempt, if it has not started.
  unfoldable pub open_attempt : String → ℕ → ℕ → AttemptLayout → List (Attempt F) → List (Attempt F)
  open_attempt id now deadline layout attempts =
      update_many (λ a. a.id === id && is_not_started a.status) (opened now deadline layout)
        attempts

  -- Closes an attempt, if it is in progress.
  unfoldable pub close_attempt : String → Closing F → List (Attempt F) → List (Attempt F)
  close_attempt id c attempts =
      update_many (λ a. a.id === id && is_in_progress a.status) (closed c) attempts

  abbrev pub find_attempt : String → List (Attempt F) → Option (Attempt F)
  find_attempt id attempts = find? (λ a. a.id === id) attempts
