-- ===== src/Canonical/Scoring/Flags.antt =====
-- Proofs about `scoreAlignment` of scoring.ts: the flags.
use mathlib.Core.List.{append_assoc, append-nil}
use tmx_assessment.Prelude.{
  ℕ, ◌+◌, ◌≡◌, refl, sym, ap, ◌∙◌, inl, inr, Bool-cases, Bool, true, false, Option, none, some,
  List, [], ◌∷◌, ◌++◌, concat, map, if◌then◌else◌, leb,
}
use tmx_assessment.Prelude.Int.{ℤ, ◌-ℤ◌, abs}
use tmx_assessment.Float.{Float}
use tmx_assessment.Canonical.Snapshot.{SnapshotQuestion, AssessmentSnapshot}
use tmx_assessment.Canonical.Scoring.Groups.{Answers, AlignmentFlag, Group, groups}
use tmx_assessment.Canonical.Scoring.Alignment.{
  Tally, flag_for, is_flagged, align_question, align_questions, aligned_sections, score_alignment,
}
use tmx_assessment.Canonical.Scoring.Compared.{compared, add_compared, align_question_lem}
use tmx_assessment.Canonical.Scoring.Partition.{grouped}

-- The flags of one question: one, if the values compared are two points or more apart.
abbrev flags_of : SnapshotQuestion → Option (ℤ × ℤ) → List AlignmentFlag
flags_of q none = []
flags_of q (some (e, v)) = if leb 2 (abs (v -ℤ e)) then flag_for q e v ∷ [] else []

abbrev pub question_flags : Answers → SnapshotQuestion → List AlignmentFlag
question_flags answers q = flags_of q (compared answers q)

abbrev pub is_compared : Option (ℤ × ℤ) → Bool
is_compared none = false
is_compared (some p) = true

module _ (fl : Float) where
  open fl use {F, of_ℕ}

  add_compared_flags :
      (q : SnapshotQuestion) (c : Option (ℤ × ℤ)) (t : Tally fl)
      → (add_compared fl q c t).flags ≡ t.flags ++ flags_of q c
  add_compared_flags q none t = sym (append-nil t.flags)
  add_compared_flags q (some (e, v)) t = elim (Bool-cases (is_flagged e v)) [
    | inl f ↦ rw f
    | inr f ↦ rw f (sym (append-nil t.flags))
  ]

  align_questions_flags :
      (answers : Answers) (t : Tally fl) (qs : List SnapshotQuestion)
      → (align_questions fl answers t qs).flags
        ≡ t.flags ++ concat (map (question_flags answers) qs)
  unfolding align_questions
  align_questions_flags answers t [] = sym (append-nil t.flags)
  align_questions_flags answers t (q ∷ qs) =
      align_questions_flags answers (align_question fl answers q t) qs
      ∙ ap (λ (s : Tally fl). s.flags ++ concat (map (question_flags answers) qs))
          (align_question_lem fl answers q t)
      ∙ ap (λ (l : List AlignmentFlag). l ++ concat (map (question_flags answers) qs))
          (add_compared_flags q (compared answers q) t)
      ∙ append_assoc t.flags (question_flags answers q) (concat (map (question_flags answers) qs))

  concat-map-append :
      (answers : Answers) (xs ys : List SnapshotQuestion)
      → concat (map (question_flags answers) (xs ++ ys))
        ≡ concat (map (question_flags answers) xs) ++ concat (map (question_flags answers) ys)
  concat-map-append answers [] ys = refl
  concat-map-append answers (x ∷ xs) ys =
      ap (λ (l : List AlignmentFlag). question_flags answers x ++ l)
        (concat-map-append answers xs ys)
      ∙ sym (append_assoc (question_flags answers x) _ _)

  aligned_sections_flags :
      (answers : Answers) (n : ℕ) (flags : List AlignmentFlag) (gs : List (Group F))
      → (aligned_sections fl answers n flags gs).2
        ≡ flags ++ concat (map (question_flags answers) (grouped gs))
  unfolding aligned_sections
  aligned_sections_flags answers n flags [] = sym (append-nil flags)
  aligned_sections_flags answers n flags (g ∷ gs) =
      let t : Tally fl =
        align_questions fl answers (record { total = of_ℕ 0; answered = 0; flags = flags })
          g.questions in
      let here : List AlignmentFlag = concat (map (question_flags answers) g.questions) in
      let later : List AlignmentFlag = concat (map (question_flags answers) (grouped gs)) in
      aligned_sections_flags answers (n + t.answered) t.flags gs
      ∙ ap (λ (l : List AlignmentFlag). l ++ later)
          (align_questions_flags answers (record { total = of_ℕ 0; answered = 0; flags = flags })
            g.questions)
      ∙ append_assoc flags here later
      ∙ ap (λ (l : List AlignmentFlag). flags ++ l)
          (sym (concat-map-append answers g.questions (grouped gs)))

  -- The flags are those of the questions, in the order of the groups: a question is flagged exactly
  -- when it has a role profile and the candidate chose an option with a value two points or more
  -- away from it, and the flag holds both values, their difference and its direction.
  pub score_alignment_flags :
      (snapshot : AssessmentSnapshot F) (answers : Answers)
      → (score_alignment fl snapshot answers).flags
        ≡ concat (map (question_flags answers) (grouped (groups snapshot)))
  unfolding score_alignment
  score_alignment_flags snapshot answers = aligned_sections_flags answers 0 [] (groups snapshot)
