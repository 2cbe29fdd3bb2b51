-- ===== src/Canonical/Scoring/Means.antt =====
-- Proofs about scoring.ts: the bounds of the overall score, a weighted mean of section scores.
use native.Mathlib.Nat.{zero-add, add-zero}
use tmx_assessment.Prelude.{
  ℕ, suc, ◌+◌, ◌<◌, ◌≡◌, inl, inr, true, false, List, [], ◌∷◌, length, filter, subst, All, All-map,
  All-both, All-filter, filter_passes, ltb, ltb→lt, Bool-cases, arith,
}
use tmx_assessment.Float.{Float}
use tmx_assessment.Schema.{correct_answer, alignment}
use tmx_assessment.Canonical.Snapshot.{AssessmentSnapshot}
use tmx_assessment.Canonical.Scoring.Groups.{Answers, SectionScore, ScoreResult, groups}
use tmx_assessment.Canonical.Scoring.Correct.{correct_sections, score_correct_answers}
use tmx_assessment.Canonical.Scoring.Counts.{correct-le-length}
use tmx_assessment.Canonical.Scoring.Alignment.{
  aligned_sections, weight_of, is_weighted, sum_by, overall_score, score_alignment,
}
use tmx_assessment.Canonical.Scoring.Attempt.{score_by, score_attempt}
use tmx_assessment.Canonical.Scoring.Bounds.{
  InUnit, ScoreInUnit, InUnit-if, zero-InUnit, quotient-InUnit, ratio-InUnit,
  aligned_sections-InUnit, correct_sections-InUnit,
}

module _ (fl : Float) where
  open fl use {
    F, of_ℕ, add, mul, div, le, le_refl, le_trans, le_total, of_mono, zero_add, add_zero, add_mono,
    add_one, mul_nonneg, mul_le, div_nonneg, div_le_one,
  }

  abbrev Section : Type 0
  Section = SectionScore F

  abbrev IsNonneg : (Section → F) → Section → Type 0
  IsNonneg f s = le (of_ℕ 0) (f s) ≡ true

  add_grows : (a b : F) → le (of_ℕ 0) b ≡ true → le a (add a b) ≡ true
  add_grows a b h =
      subst (λ x. le x (add a b) ≡ true) (add_zero a) (add_mono a a (of_ℕ 0) b (le_refl a) h)

  sum_grows :
      (f : Section → F) (sum : F) (ss : List Section)
      → All (IsNonneg f) ss
      → le sum (sum_by fl f sum ss) ≡ true
  unfolding sum_by
  sum_grows f sum [] h = le_refl sum
  sum_grows f sum (s ∷ ss) h =
      le_trans sum (add sum (f s)) (sum_by fl f (add sum (f s)) ss) (add_grows sum (f s) h.0)
        (sum_grows f (add sum (f s)) ss h.1)

  sum_mono :
      (f g : Section → F) (a b : F) (ss : List Section)
      → le a b ≡ true
      → All (λ s. le (f s) (g s) ≡ true) ss
      → le (sum_by fl f a ss) (sum_by fl g b ss) ≡ true
  unfolding sum_by
  sum_mono f g a b [] h k = h
  sum_mono f g a b (s ∷ ss) h k =
      sum_mono f g (add a (f s)) (add b (g s)) ss (add_mono a b (f s) (g s) h k.0) k.1

  sum_of_units :
      (f : Section → F) (sum : F) (n : ℕ) (ss : List Section)
      → le sum (of_ℕ n) ≡ true
      → All (λ s. le (f s) (of_ℕ 1) ≡ true) ss
      → le (sum_by fl f sum ss) (of_ℕ (n + length ss)) ≡ true
  unfolding sum_by
  sum_of_units f sum n [] h k = rw add-zero h
  sum_of_units f sum n (s ∷ ss) h k =
      let next : le (add sum (f s)) (of_ℕ (suc n)) ≡ true =
        le_trans (add sum (f s)) (add (of_ℕ n) (of_ℕ 1)) (of_ℕ (suc n))
          (add_mono sum (of_ℕ n) (f s) (of_ℕ 1) h k.0) (add_one n) in
      let more : n + suc (length ss) ≡ suc n + length ss = omega arith in
      rw more (sum_of_units f (add sum (f s)) (suc n) ss next k.1)

  weight_pos : (s : Section) → is_weighted fl s ≡ true → le (weight_of fl s) (of_ℕ 0) ≡ false
  weight_pos s h = ground arith

  weight-IsNonneg : (s : Section) → is_weighted fl s ≡ true → IsNonneg (weight_of fl) s
  weight-IsNonneg s h = le_total (weight_of fl s) (of_ℕ 0) (weight_pos s h)

  -- A sum that begins with a positive weight is positive.
  weights_pos :
      (s : Section) (ss : List Section)
      → All (λ s. is_weighted fl s ≡ true) (s ∷ ss)
      → le (sum_by fl (weight_of fl) (of_ℕ 0) (s ∷ ss)) (of_ℕ 0) ≡ false
  unfolding sum_by
  weights_pos s ss (p, h) =
      let w : F = weight_of fl s in
      let total : F = sum_by fl (weight_of fl) (add (of_ℕ 0) w) ss in
      elim (Bool-cases (le total (of_ℕ 0))) [
        | inl e ↦ cc (
          le_trans w total (of_ℕ 0)
              (subst (λ x. le x total ≡ true) (zero_add w)
                (sum_grows (weight_of fl) (add (of_ℕ 0) w) ss (
                  All-map (λ s. is_weighted fl s ≡ true) (IsNonneg (weight_of fl)) ss
                    weight-IsNonneg h)))
              e,
          weight_pos s p,
        )
        | inr e ↦ e
      ]

  weighted_term :
      (s : Section)
      → (is_weighted fl s ≡ true) × ScoreInUnit fl s
      → (IsNonneg (λ s. mul (weight_of fl s) s.score) s)
        × (le (mul (weight_of fl s) s.score) (weight_of fl s) ≡ true)
  weighted_term s (p, (lo, hi)) = (
    mul_nonneg (weight_of fl s) s.score (weight-IsNonneg s p) lo,
    mul_le (weight_of fl s) s.score (weight-IsNonneg s p) hi,
  )

  weighted-InUnit :
      (ws : List Section)
      → 0 < length ws
      → All (λ s. (is_weighted fl s ≡ true) × ScoreInUnit fl s) ws
      → InUnit fl (
          div
            (sum_by fl (λ s. mul (weight_of fl s) s.score) (of_ℕ 0) ws)
            (sum_by fl (weight_of fl) (of_ℕ 0) ws))
  weighted-InUnit [] h a = elim h [ ]
  weighted-InUnit (s ∷ ss) h a =
      let term : Section → F = λ s. mul (weight_of fl s) s.score in
      let positive =
        weights_pos s ss (All-map _ (λ s. is_weighted fl s ≡ true) (s ∷ ss) (λ x u. u.0) a) in
      (
        div_nonneg (sum_by fl term (of_ℕ 0) (s ∷ ss)) (sum_by fl (weight_of fl) (of_ℕ 0) (s ∷ ss))
            (sum_grows term (of_ℕ 0) (s ∷ ss)
              (All-map _ (IsNonneg term) (s ∷ ss) (λ x u. (weighted_term x u).0) a))
            positive,
        div_le_one (sum_by fl term (of_ℕ 0) (s ∷ ss)) (sum_by fl (weight_of fl) (of_ℕ 0) (s ∷ ss))
            positive
            (sum_mono term (weight_of fl) (of_ℕ 0) (of_ℕ 0) (s ∷ ss) (le_refl (of_ℕ 0)) (
              All-map _ (λ s. le (term s) (weight_of fl s) ≡ true) (s ∷ ss)
                (λ x u. (weighted_term x u).1) a)),
      )

  overall_score-InUnit :
      (ss : List Section) → All (ScoreInUnit fl) ss → InUnit fl (overall_score fl ss)
  unfolding overall_score
  overall_score-InUnit ss h =
      let weighted : List Section = filter (is_weighted fl) ss in
      InUnit-if fl (ltb 0 (length weighted)) _ _
        (λ e. weighted-InUnit weighted (ltb→lt 0 (length weighted) e) (
          All-both _ _ weighted (filter_passes (is_weighted fl) ss)
            (All-filter (is_weighted fl) (ScoreInUnit fl) ss h)))
        (λ _.
          InUnit-if fl (ltb 0 (length ss)) _ _
            (λ e.
              quotient-InUnit fl _ (length ss) (ltb→lt 0 (length ss) e)
                (sum_grows (λ s. s.score) (of_ℕ 0) ss
                  (All-map _ (IsNonneg (λ s. s.score)) ss (λ x u. u.0) h))
                (rw zero-add at (
                  sum_of_units (λ s. s.score) (of_ℕ 0) 0 ss (le_refl (of_ℕ 0))
                    (All-map _ (λ s. le s.score (of_ℕ 1) ≡ true) ss (λ x u. u.1) h))))
            (λ _. zero-InUnit fl))

  abbrev pub AllInUnit : ScoreResult F → Type 0
  AllInUnit r = InUnit fl r.score × All (ScoreInUnit fl) r.sections

  aligned-AllInUnit :
      (snapshot : AssessmentSnapshot F) (answers : Answers)
      → AllInUnit (score_alignment fl snapshot answers)
  unfolding score_alignment
  aligned-AllInUnit snapshot answers =
      let sections = aligned_sections-InUnit fl answers 0 [] (groups snapshot) in
      (
        overall_score-InUnit (aligned_sections fl answers 0 [] (groups snapshot)).0 sections,
        sections,
      )

  correct-AllInUnit :
      (snapshot : AssessmentSnapshot F) (answers : Answers)
      → AllInUnit (score_correct_answers fl snapshot answers)
  unfolding score_correct_answers
  correct-AllInUnit snapshot answers = (
    ratio-InUnit fl (correct_sections fl answers (0, 0) (groups snapshot)).1.0
        (length snapshot.questions) (correct-le-length fl snapshot answers),
    correct_sections-InUnit fl answers (0, 0) (groups snapshot),
  )

  -- The score of an attempt, and of each of its sections, lies from 0 to 1, whatever the snapshot,
  -- the weights of its sections and the answers.
  pub score_attempt-InUnit :
      (snapshot : AssessmentSnapshot F) (answers : Answers)
      → AllInUnit (score_attempt fl snapshot answers)
  unfolding score_attempt
  score_attempt-InUnit snapshot answers =
      elim snapshot.scoring_method as (λ m. AllInUnit (score_by fl m snapshot answers)) [
        | correct_answer ↦ correct-AllInUnit snapshot answers
        | alignment ↦ aligned-AllInUnit snapshot answers
      ]
