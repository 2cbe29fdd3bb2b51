-- ===== src/Canonical/Scoring/Alignment.antt =====
-- scoring.ts, `itemAlignment` and `scoreAlignment`: how close the answers are to the role profile.
use tmx_assessment.Prelude.{
  ℕ, ◌+◌, Bool, true, false, ltb, leb, ◌==◌, if◌then◌else◌, Option, none, some, List, [], ◌∷◌, ◌++◌,
  length, filter,
}
use tmx_assessment.Prelude.Int.{ℤ, pos, ◌-ℤ◌, abs, ltb_ℤ, max_ℤ, min_ℤ}
use tmx_assessment.Schema.{QuestionType, choice_scale}
use tmx_assessment.Float.{Float, lt, half}
use tmx_assessment.Canonical.Snapshot.{SnapshotOption, SnapshotQuestion, AssessmentSnapshot}
use tmx_assessment.Canonical.Scoring.Groups.{
  Answers, SectionScore, candidate_wants_more, role_offers_more, AlignmentFlag, ScoreResult, Group,
  groups, chosen_option, band_label_for,
}

abbrev pub alignment_flag_gap : ℕ
alignment_flag_gap = 2

-- The option values that are there.
abbrev pub scale_values : List SnapshotOption → List ℤ
scale_values [] = []
scale_values (o ∷ os) = elim o.value [ none ↦ scale_values os | some v ↦ v ∷ scale_values os ]

max_from : ℤ → List ℤ → ℤ
unfolding max_ℤ
max_from m [] = m
max_from m (v ∷ vs) = max_from (max_ℤ m v) vs

min_from : ℤ → List ℤ → ℤ
unfolding min_ℤ
min_from m [] = m
min_from m (v ∷ vs) = min_from (min_ℤ m v) vs

-- `Math.max(...values) - Math.min(...values)`. With no values it is -Infinity, which the caller only
-- compares with 0; so is `none`.
unfoldable pub scale_span : List ℤ → Option ℤ
unfolding max_from min_from ◌-ℤ◌
scale_span [] = none
scale_span (v ∷ vs) = some (max_from v vs -ℤ min_from v vs)

abbrev pub is_choice_scale : QuestionType → Bool
is_choice_scale choice_scale = true
is_choice_scale _ = false

abbrev pub flag_for : SnapshotQuestion → ℤ → ℤ → AlignmentFlag
flag_for question employer_value candidate_value = record {
  question_id = question.id;
  ref = question.ref;
  stem = question.stem;
  employer_value = employer_value;
  candidate_value = candidate_value;
  gap = candidate_value -ℤ employer_value;
  direction =
      if ltb_ℤ (pos 0) (candidate_value -ℤ employer_value)
      then candidate_wants_more
      else role_offers_more;
}

abbrev pub is_flagged : ℤ → ℤ → Bool
is_flagged employer_value candidate_value =
    leb alignment_flag_gap (abs (candidate_value -ℤ employer_value))

module _ (fl : Float) where
  open fl use {F, of_ℕ, add, sub, mul, div, le}

  -- `Math.max(0, x)`
  abbrev pub at_least_zero : F → F
  at_least_zero x = if le (of_ℕ 0) x then x else of_ℕ 0

  unfoldable pub span_alignment : ℕ → Option ℤ → F
  span_alignment gap none = of_ℕ 1
  span_alignment gap (some span) =
      if ltb_ℤ (pos 0) span
      then at_least_zero (sub (of_ℕ 1) (div (of_ℕ gap) (of_ℕ (abs span))))
      else of_ℕ 1

  unfoldable pub gap_alignment : SnapshotQuestion → ℕ → F
  unfolding span_alignment scale_span
  gap_alignment question gap =
      if is_choice_scale question.type
      then (if gap == 0 then of_ℕ 1 else if gap == 1 then half fl else of_ℕ 0)
      else span_alignment gap (scale_span (scale_values question.options))

  unfoldable pub item_alignment : SnapshotQuestion → ℤ → Option F
  unfolding gap_alignment ◌-ℤ◌
  item_alignment question candidate_value = elim question.employer_value [
    | none ↦ none
    | some employer_value ↦ some (gap_alignment question (abs (candidate_value -ℤ employer_value)))
  ]

  -- The loop's variables: the sum of the alignments, the count and the flags.
  pub record Tally : Type 0 where
    pub total : F
    pub answered : ℕ
    pub flags : List AlignmentFlag

  abbrev pub add_item : SnapshotQuestion → ℤ → ℤ → F → Tally → Tally
  add_item question employer_value candidate_value alignment t = record {
    total = add t.total alignment;
    answered = t.answered + 1;
    flags =
        if is_flagged employer_value candidate_value
        then t.flags ++ flag_for question employer_value candidate_value ∷ []
        else t.flags;
  }

  -- One round of the loop: a question with no option chosen, no value or no role profile is skipped.
  unfoldable pub align_question : Answers → SnapshotQuestion → Tally → Tally
  unfolding chosen_option item_alignment
  align_question answers question t = elim (chosen_option question answers) [
    | none ↦ t
    | some option ↦ elim option.value [
      | none ↦ t
      | some candidate_value ↦ elim question.employer_value [
        | none ↦ t
        | some employer_value ↦ elim (item_alignment question candidate_value) [
          | none ↦ t
          | some alignment ↦ add_item question employer_value candidate_value alignment t
        ]
      ]
    ]
  ]

  unfoldable pub align_questions : Answers → Tally → List SnapshotQuestion → Tally
  unfolding align_question
  align_questions answers t [] = t
  align_questions answers t (q ∷ qs) = align_questions answers (align_question answers q t) qs

  abbrev pub aligned_section : Group F → Tally → SectionScore F
  aligned_section g t = record {
    section_id = g.section.section_id;
    name = g.section.name;
    score = if ltb 0 t.answered then div t.total (of_ℕ t.answered) else of_ℕ 0;
    weight = g.section.weight;
    correct = none;
    answered = t.answered;
    total = length g.questions;
  }

  -- The `map` over the groups, which also adds to `answeredCount` and `flags`.
  unfoldable pub aligned_sections :
      Answers
      → ℕ
      → List AlignmentFlag
      → List (Group F)
      → List (SectionScore F) × ℕ × List AlignmentFlag
  unfolding align_questions
  aligned_sections answers answered_count flags [] = ([], answered_count, flags)
  aligned_sections answers answered_count flags (g ∷ gs) =
      let t : Tally =
        align_questions answers (record { total = of_ℕ 0; answered = 0; flags = flags })
          g.questions in
      let (sections, answered, flagged) =
        aligned_sections answers (answered_count + t.answered) t.flags gs in
      (aligned_section g t ∷ sections, answered, flagged)

  -- `weight ?? 0`
  abbrev pub weight_of : SectionScore F → F
  weight_of s = elim s.weight [ none ↦ of_ℕ 0 | some w ↦ w ]

  abbrev pub is_weighted : SectionScore F → Bool
  is_weighted s = lt fl (of_ℕ 0) (weight_of s)

  -- `reduce((sum, s) => sum + f(s), sum)`
  unfoldable pub sum_by : (SectionScore F → F) → F → List (SectionScore F) → F
  sum_by f sum [] = sum
  sum_by f sum (s ∷ ss) = sum_by f (add sum (f s)) ss

  -- The weighted mean of the sections with a weight, or else the mean of all.
  unfoldable pub overall_score : List (SectionScore F) → F
  unfolding sum_by
  overall_score sections =
      let weighted = filter is_weighted sections in
      if ltb 0 (length weighted)
      then div (sum_by (λ s. mul (weight_of s) s.score) (of_ℕ 0) weighted)
          (sum_by weight_of (of_ℕ 0) weighted)
      else if ltb 0 (length sections)
      then div (sum_by (λ s. s.score) (of_ℕ 0) sections) (of_ℕ (length sections))
      else of_ℕ 0

  unfoldable pub score_alignment : AssessmentSnapshot F → Answers → ScoreResult F
  unfolding aligned_sections groups overall_score band_label_for
  score_alignment snapshot answers =
      let (sections, answered_count, flags) = aligned_sections answers 0 [] (groups snapshot) in
      let score = overall_score sections in
      record {
        score = score;
        band_label = band_label_for fl snapshot.bands score;
        correct_count = none;
        answered_count = answered_count;
        question_count = length snapshot.questions;
        sections = sections;
        flags = flags;
      }
