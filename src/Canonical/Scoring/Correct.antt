-- ===== src/Canonical/Scoring/Correct.antt =====
-- scoring.ts, `scoreCorrectAnswers`: one point for each correct answer.
use tmx_assessment.Prelude.{ℕ, ◌+◌, if◌then◌else◌, Option, none, some, List, [], ◌∷◌, length}
use tmx_assessment.Float.{Float}
use tmx_assessment.Canonical.Snapshot.{SnapshotOption, SnapshotQuestion, AssessmentSnapshot}
use tmx_assessment.Canonical.Scoring.Groups.{
  Answers, SectionScore, ScoreResult, Group, groups, chosen_option, ratio, band_label_for,
}

-- One round of the loop over a group's questions, on `correct` and `answered`.
abbrev pub count_answer : Option SnapshotOption → ℕ × ℕ → ℕ × ℕ
count_answer none (correct, answered) = (correct, answered)
count_answer (some option) (correct, answered) =
    (if option.is_correct then correct + 1 else correct, answered + 1)

unfoldable pub tally : Answers → ℕ × ℕ → List SnapshotQuestion → ℕ × ℕ
unfolding chosen_option
tally answers counts [] = counts
tally answers counts (q ∷ qs) = tally answers (count_answer (chosen_option q answers) counts) qs

module _ (fl : Float) where
  open fl use {F}

  abbrev pub correct_section : Group F → ℕ × ℕ → SectionScore F
  correct_section g (correct, answered) = record {
    section_id = g.section.section_id;
    name = g.section.name;
    score = ratio fl correct (length g.questions);
    weight = g.section.weight;
    correct = some correct;
    answered = answered;
    total = length g.questions;
  }

  -- The `map` over the groups, which also adds to `correctCount` and `answeredCount`.
  unfoldable pub correct_sections :
      Answers → ℕ × ℕ → List (Group F) → List (SectionScore F) × (ℕ × ℕ)
  unfolding tally ratio
  correct_sections answers counts [] = ([], counts)
  correct_sections answers (correct_count, answered_count) (g ∷ gs) =
      let (correct, answered) = tally answers (0, 0) g.questions in
      let (sections, counts) =
        correct_sections answers (correct_count + correct, answered_count + answered) gs in
      (correct_section g (correct, answered) ∷ sections, counts)

  unfoldable pub score_correct_answers : AssessmentSnapshot F → Answers → ScoreResult F
  unfolding correct_sections groups ratio band_label_for
  score_correct_answers snapshot answers =
      let (sections, counts) = correct_sections answers (0, 0) (groups snapshot) in
      let score = ratio fl counts.0 (length snapshot.questions) in
      record {
        score = score;
        band_label = band_label_for fl snapshot.bands score;
        correct_count = some counts.0;
        answered_count = counts.1;
        question_count = length snapshot.questions;
        sections = sections;
        flags = [];
      }
