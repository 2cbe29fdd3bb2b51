-- ===== src/Take/Attempts.antt =====
-- attempts.service.ts: when an attempt is overdue, and how it is closed and scored. A method runs at
-- one instant, `now`.
use tmx_assessment.Prelude.{
  ℕ, ◌+◌, ◌-◌, ◌/◌, String, Bool, true, false, ◌&&◌, ltb, Option, none, some, List, [], ◌∷◌, map,
  filter, if◌then◌else◌,
}
use mathlib.Core.Option
use tmx_assessment.Prelude.Text.{◌===◌}
use tmx_assessment.Prelude.Dict.{Dict, from_entries}
use tmx_assessment.Schema.{AttemptStatus, expired, is_in_progress}
use tmx_assessment.Float.{Float}
use tmx_assessment.Canonical.Scoring.Groups.{Answers, ScoreResult}
use tmx_assessment.Canonical.Scoring.Attempt.{score_attempt}
use tmx_assessment.Take.Store.{Attempt, Answer, Store, Closing, find_attempt, close_attempt}

-- DEADLINE_GRACE_MS
abbrev pub deadline_grace : ℕ
deadline_grace = 30_000

-- Past the deadline plus the grace period.
unfoldable pub is_overdue : Option ℕ → ℕ → Bool
is_overdue none now = false
is_overdue (some deadline) now = ltb (deadline + deadline_grace) now

abbrev pub entries_of : List Answer → Dict String
entries_of answers = map (λ a. (a.question_id, a.option_id)) answers

-- The answers of one attempt, as a map.
unfoldable pub answers_of : String → List Answer → Answers
unfolding from_entries
answers_of attempt_id answers =
    from_entries [] (entries_of (filter (λ a. a.attempt_id === attempt_id) answers))

-- `Math.round(x / 1000)` of a number of milliseconds from 0 up
abbrev pub rounded_seconds : ℕ → ℕ
rounded_seconds ms = (ms + 500) / 1000

-- The deadline, if it is before `now`.
abbrev pub end_of : Option ℕ → ℕ → ℕ
end_of none now = now
end_of (some deadline) now = if ltb deadline now then deadline else now

-- An end before the start gives 0, as the truncated difference does.
abbrev pub time_taken : Option ℕ → Option ℕ → ℕ → Option ℕ
time_taken started_at deadline_at now =
    Option.map (λ started. rounded_seconds (end_of deadline_at now - started)) started_at

abbrev pub ended_before : ℕ → Option ℕ → Bool
ended_before limit none = false
ended_before limit (some deadline) = ltb deadline limit

module _ {F : Type 0} where
  abbrev pub in_link : Option String → Attempt F → Bool
  in_link none a = true
  in_link (some invitation_id) a = a.invitation_id === invitation_id

  abbrev pub overdue_ids : Option String → ℕ → List (Attempt F) → List String
  overdue_ids invitation now attempts =
      map (λ a. a.id)
        (filter
          (λ a.
            is_in_progress a.status
            && ended_before (now - deadline_grace) a.deadline_at
            && in_link invitation a)
          attempts)

module _ (fl : Float) where
  open fl use {F}

  unfoldable pub closing : Attempt F → List Answer → AttemptStatus → ℕ → Closing F
  unfolding score_attempt answers_of
  closing attempt answers status now =
      let result : ScoreResult F =
        score_attempt fl attempt.snapshot (answers_of attempt.id answers) in
      record {
        status = status;
        finished_at = now;
        score = result.score;
        band_label = result.band_label;
        correct_count = result.correct_count;
        question_count = result.question_count;
        section_scores = result.sections;
        flags = result.flags;
        time_taken_seconds = time_taken attempt.started_at attempt.deadline_at now;
      }

module _ (fl : Float) {R : Type 0} where
  open fl use {F}

  -- Scores an attempt and closes it, if it is in progress.
  unfoldable pub finish : String → AttemptStatus → ℕ → Store F R → Store F R
  unfolding closing close_attempt
  finish attempt_id status now store = elim (find_attempt attempt_id store.attempts) [
    | none ↦ store
    | some attempt ↦
        if is_in_progress attempt.status
        then record store {
          attempts =
              close_attempt attempt_id (closing fl attempt store.answers status now) store.attempts;
        }
        else store
  ]

  unfoldable pub finish_all : List String → ℕ → Store F R → Store F R
  unfolding finish
  finish_all [] now store = store
  finish_all (id ∷ ids) now store = finish_all ids now (finish id expired now store)

  -- Closes the attempts whose time ran out: those of one link, or all.
  unfoldable pub finalize_overdue : Option String → ℕ → Store F R → Store F R
  unfolding finish_all
  finalize_overdue invitation now store =
      finish_all (overdue_ids invitation now store.attempts) now store
