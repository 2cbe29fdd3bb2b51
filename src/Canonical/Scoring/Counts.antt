-- ===== src/Canonical/Scoring/Counts.antt =====
-- The counts of a test scored by correct answers: the totals against a count over the questions of
-- the test, and what each section adds to them.
use tmx_assessment.Prelude.{
  ℕ, suc, ◌+◌, ◌≤◌, ◌<◌, ◌≡◌, refl, ◌∙◌, Bool, true, false, Option, none, some, List, [], ◌∷◌,
  length, All, count_if, count_if-append, count_if-le-length, count_if_mono, count_if_perm,
  length-append, length_perm, if◌then◌else◌, arith,
}
use tmx_assessment.Float.{Float}
use tmx_assessment.Canonical.Snapshot.{SnapshotOption, SnapshotQuestion, AssessmentSnapshot}
use tmx_assessment.Canonical.Scoring.Groups.{Answers, SectionScore, Group, groups, chosen_option}
use tmx_assessment.Canonical.Scoring.Correct.{
  count_answer, tally, correct_sections, score_correct_answers,
}
use tmx_assessment.Canonical.Scoring.Partition.{grouped, groups-perm, groups-nonempty}

abbrev pub is_given : Option SnapshotOption → Bool
is_given none = false
is_given (some option) = true

abbrev pub is_right : Option SnapshotOption → Bool
is_right none = false
is_right (some option) = option.is_correct

-- The questions of a list that were answered, and answered with their correct option.
abbrev pub given_count : Answers → List SnapshotQuestion → ℕ
given_count answers qs = count_if (λ q. is_given (chosen_option q answers)) qs

abbrev pub right_count : Answers → List SnapshotQuestion → ℕ
right_count answers qs = count_if (λ q. is_right (chosen_option q answers)) qs

right_given : (o : Option SnapshotOption) → is_right o ≡ true → is_given o ≡ true
right_given none h = cc
right_given (some o) h = refl

pub right-le-given :
    (answers : Answers) (qs : List SnapshotQuestion)
    → right_count answers qs ≤ given_count answers qs
right-le-given answers qs =
    count_if_mono (λ q. is_right (chosen_option q answers))
      (λ q. is_given (chosen_option q answers)) qs (λ q. right_given (chosen_option q answers))

pub given-le-length :
    (answers : Answers) (qs : List SnapshotQuestion) → given_count answers qs ≤ length qs
given-le-length answers qs = count_if-le-length (λ q. is_given (chosen_option q answers)) qs

pub tally_lem :
    (answers : Answers) (c a : ℕ) (qs : List SnapshotQuestion)
    → tally answers (c, a) qs ≡ (c + right_count answers qs, a + given_count answers qs)
unfolding tally
tally_lem answers c a [] = ground arith
tally_lem answers c a (q ∷ qs) =
    elim (chosen_option q answers)
      as (λ o. tally answers (count_answer o (c, a)) qs ≡ (
        c + (if is_right o then suc (right_count answers qs) else right_count answers qs),
        a + (if is_given o then suc (given_count answers qs) else given_count answers qs),
      )) [
        | none ↦ tally_lem answers c a qs
        | some o ↦ ground (arith, tally_lem answers (if o.is_correct then c + 1 else c) (a + 1) qs)
      ]

abbrev pub sum_ℕ {ℓ} : {A : Type ℓ} → (A → ℕ) → List A → ℕ
sum_ℕ f [] = 0
sum_ℕ f (x ∷ xs) = f x + sum_ℕ f xs

module _ (fl : Float) where
  open fl use {F}

  correct_sections_counts :
      (answers : Answers) (c a : ℕ) (gs : List (Group F))
      → (correct_sections fl answers (c, a) gs).1
        ≡ (c + right_count answers (grouped gs), a + given_count answers (grouped gs))
  unfolding correct_sections
  correct_sections_counts answers c a [] = ground arith
  correct_sections_counts answers c a (g ∷ gs) =
      let (correct, answered) = tally answers (0, 0) g.questions in
      ground (
        arith,
        tally_lem answers 0 0 g.questions,
        correct_sections_counts answers (c + correct) (a + answered) gs,
        count_if-append (λ q. is_right (chosen_option q answers)) g.questions (grouped gs),
        count_if-append (λ q. is_given (chosen_option q answers)) g.questions (grouped gs),
      )

  -- Whatever the sections are, the counts of the whole test are those of its questions: the number
  -- answered with the correct option, the number answered, and the number of questions.
  pub score_correct_answers_counts :
      (snapshot : AssessmentSnapshot F) (answers : Answers)
      → let r = score_correct_answers fl snapshot answers in
        (r.correct_count ≡ some (right_count answers snapshot.questions))
        × (r.answered_count ≡ given_count answers snapshot.questions)
        × (r.question_count ≡ length snapshot.questions)
  unfolding score_correct_answers
  score_correct_answers_counts snapshot answers =
      let counted = correct_sections_counts answers 0 0 (groups snapshot) in
      let rights = count_if_perm (λ q. is_right (chosen_option q answers)) (groups-perm snapshot) in
      let givens = count_if_perm (λ q. is_given (chosen_option q answers)) (groups-perm snapshot) in
      (ground (arith, counted, rights), ground (arith, counted, givens), refl)

  -- A section holds at least one question, and answers no more of them than there are, nor more of
  -- them correctly than it answers.
  abbrev pub IsConsistent : SectionScore F → Type 0
  IsConsistent s =
      (c : ℕ) × (s.correct ≡ some c) × (c ≤ s.answered) × (s.answered ≤ s.total) × (0 < s.total)

  sum_totals :
      (answers : Answers) (counts : ℕ × ℕ) (gs : List (Group F))
      → sum_ℕ (λ s. s.total) (correct_sections fl answers counts gs).0 ≡ length (grouped gs)
  unfolding correct_sections
  sum_totals answers (c, a) [] = refl
  sum_totals answers (c, a) (g ∷ gs) =
      let (correct, answered) = tally answers (0, 0) g.questions in
      omega (
        arith,
        length-append g.questions (grouped gs),
        sum_totals answers (c + correct, a + answered) gs,
      )

  sum_answered :
      (answers : Answers) (c a : ℕ) (gs : List (Group F))
      → a + sum_ℕ (λ s. s.answered) (correct_sections fl answers (c, a) gs).0
        ≡ (correct_sections fl answers (c, a) gs).1.1
  unfolding correct_sections
  sum_answered answers c a [] = omega arith
  sum_answered answers c a (g ∷ gs) =
      let (correct, answered) = tally answers (0, 0) g.questions in
      omega (arith, sum_answered answers (c + correct) (a + answered) gs)

  consistent :
      (answers : Answers) (counts : ℕ × ℕ) (gs : List (Group F))
      → All (λ g. 0 < length g.questions) gs
      → All IsConsistent (correct_sections fl answers counts gs).0
  unfolding correct_sections
  consistent answers (c, a) [] h = tt
  consistent answers (c, a) (g ∷ gs) (p, h) =
      let (correct, answered) = tally answers (0, 0) g.questions in
      (
        (
          correct,
          refl,
          ground (arith, tally_lem answers 0 0 g.questions, right-le-given answers g.questions),
          ground (arith, tally_lem answers 0 0 g.questions, given-le-length answers g.questions),
          p,
        ),
        consistent answers (c + correct, a + answered) gs h,
      )

  -- The sections of the score are a partition of the test: each is consistent and not empty, their
  -- totals add up to the number of questions, and their answered counts to the count of the test.
  pub score_correct_answers_sections :
      (snapshot : AssessmentSnapshot F) (answers : Answers)
      → let r = score_correct_answers fl snapshot answers in
        All IsConsistent r.sections
        × (sum_ℕ (λ s. s.total) r.sections ≡ r.question_count)
        × (sum_ℕ (λ s. s.answered) r.sections ≡ r.answered_count)
  unfolding score_correct_answers
  score_correct_answers_sections snapshot answers = (
    consistent answers (0, 0) (groups snapshot) (groups-nonempty snapshot),
    sum_totals answers (0, 0) (groups snapshot) ∙ length_perm (groups-perm snapshot),
    omega (arith, sum_answered answers 0 0 (groups snapshot)),
  )

  pub correct-le-length :
      (snapshot : AssessmentSnapshot F) (answers : Answers)
      → (correct_sections fl answers (0, 0) (groups snapshot)).1.0 ≤ length snapshot.questions
  correct-le-length snapshot answers = ground (
    arith,
    correct_sections_counts answers 0 0 (groups snapshot),
    count_if-le-length (λ q. is_right (chosen_option q answers)) (grouped (groups snapshot)),
    length_perm (groups-perm snapshot),
  )
