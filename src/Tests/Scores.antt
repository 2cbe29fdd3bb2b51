-- ===== src/Tests/Scores.antt =====
-- The theorems on scores, at the fixtures.
use tmx_assessment.Prelude.{◌≡◌, refl, true, some, List, [], ◌∷◌, Mem, All, length, concat, map}
use mathlib.Core.List.{mem-cons}
use mathlib.Core.Logic.Or
use tmx_assessment.Float.Fraction.{Fraction, fractions}
use tmx_assessment.Float.Fraction as Fraction
use tmx_assessment.Canonical.Scoring.Groups.{groups, band_for, epsilon}
use tmx_assessment.Canonical.Scoring.Correct.{score_correct_answers}
use tmx_assessment.Canonical.Scoring.Alignment.{score_alignment}
use tmx_assessment.Canonical.Scoring.Attempt.{score_attempt}
use tmx_assessment.Canonical.Scoring.Partition.{grouped}
use tmx_assessment.Canonical.Scoring.Counts.{
  right_count, given_count, sum_ℕ, IsConsistent, score_correct_answers_counts,
  score_correct_answers_sections,
}
use tmx_assessment.Canonical.Scoring.Means.{AllInUnit, score_attempt-InUnit}
use tmx_assessment.Canonical.Scoring.Bands.{band_for_highest}
use tmx_assessment.Canonical.Scoring.Flags.{question_flags, score_alignment_flags}
use tmx_assessment.Canonical.Snapshot.{SnapshotBand}
use tmx_assessment.Tests.Fixtures.{choice_test, scale_test, some_answers, low_band, high_band}

score_attempt-InUnit_example : AllInUnit fractions (score_attempt fractions scale_test some_answers)
score_attempt-InUnit_example = score_attempt-InUnit fractions scale_test some_answers

score_correct_answers_counts_example :
    let r = score_correct_answers fractions choice_test some_answers in
    (r.correct_count ≡ some (right_count some_answers choice_test.questions))
    × (r.answered_count ≡ given_count some_answers choice_test.questions)
    × (r.question_count ≡ length choice_test.questions)
score_correct_answers_counts_example =
    score_correct_answers_counts fractions choice_test some_answers

score_correct_answers_sections_example :
    let r = score_correct_answers fractions choice_test some_answers in
    All (IsConsistent fractions) r.sections
    × (sum_ℕ (λ s. s.total) r.sections ≡ r.question_count)
    × (sum_ℕ (λ s. s.answered) r.sections ≡ r.answered_count)
score_correct_answers_sections_example =
    score_correct_answers_sections fractions choice_test some_answers

abbrev both_bands : List (SnapshotBand Fraction)
both_bands = low_band ∷ high_band ∷ []

low_band_in : Mem low_band both_bands
low_band_in = mem-cons.1 (Or.inl refl)

band_for_highest_example :
    (b : SnapshotBand Fraction) × (band_for fractions both_bands (1, 1) ≡ some b)
    × Mem b both_bands
    × (Fraction.le b.min_score (Fraction.add (1, 1) (epsilon fractions)) ≡ true)
    × (Fraction.le low_band.min_score b.min_score ≡ true)
unfolding Fraction.le Fraction.add Fraction.div
band_for_highest_example = band_for_highest fractions both_bands (1, 1) low_band low_band_in refl

score_alignment_flags_example :
    (score_alignment fractions scale_test some_answers).flags
    ≡ concat (map (question_flags some_answers) (grouped (groups scale_test)))
score_alignment_flags_example = score_alignment_flags fractions scale_test some_answers
