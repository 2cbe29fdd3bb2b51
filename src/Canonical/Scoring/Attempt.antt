-- ===== src/Canonical/Scoring/Attempt.antt =====
-- scoring.ts, `scoreAttempt`: the scoring method of the snapshot decides.
use tmx_assessment.Schema.{ScoringMethod, correct_answer, alignment}
use tmx_assessment.Float.{Float}
use tmx_assessment.Canonical.Snapshot.{AssessmentSnapshot}
use tmx_assessment.Canonical.Scoring.Groups.{Answers, ScoreResult}
use tmx_assessment.Canonical.Scoring.Correct.{score_correct_answers}
use tmx_assessment.Canonical.Scoring.Alignment.{score_alignment}

abbrev pub score_by :
    (fl : Float) → ScoringMethod → AssessmentSnapshot fl.F → Answers → ScoreResult fl.F
score_by fl alignment snapshot answers = score_alignment fl snapshot answers
score_by fl correct_answer snapshot answers = score_correct_answers fl snapshot answers

unfoldable pub score_attempt : (fl : Float) → AssessmentSnapshot fl.F → Answers → ScoreResult fl.F
unfolding score_alignment score_correct_answers
score_attempt fl snapshot answers = score_by fl snapshot.scoring_method snapshot answers
