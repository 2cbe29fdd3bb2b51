-- ===== src/Canonical/Scoring/Bounds.antt =====
-- Proofs about scoring.ts: the bounds of the scores of questions and sections.
use native.Mathlib.Numerals.{add-one}
use tmx_assessment.Prelude.{
  ℕ, zero, suc, ◌+◌, ◌≤◌, ◌<◌, ◌≡◌, refl, inl, inr, Bool, true, false, Option, none, some, List, [],
  ◌∷◌, length, All, if◌then◌else◌, ltb, ◌==◌, ltb→lt, Option-cases, arith,
}
use tmx_assessment.Prelude.Int.{ℤ, pos, negsuc, ◌-ℤ◌, ltb_ℤ, abs}
use tmx_assessment.Float.{Float, half}
use tmx_assessment.Canonical.Snapshot.{SnapshotQuestion}
use tmx_assessment.Canonical.Scoring.Groups.{Answers, SectionScore, Group, ratio, AlignmentFlag}
use tmx_assessment.Canonical.Scoring.Correct.{tally, correct_sections}
use tmx_assessment.Canonical.Scoring.Counts.{tally_lem, right-le-given, given-le-length}
use tmx_assessment.Canonical.Scoring.Compared.{compared, add_compared, align_question_lem}
use tmx_assessment.Canonical.Scoring.Alignment.{
  Tally, at_least_zero, span_alignment, gap_alignment, item_alignment, is_choice_scale, scale_span,
  scale_values, add_item, align_question, align_questions, aligned_section, aligned_sections,
}

module _ (fl : Float) where
  open fl use {
    F, of_ℕ, add, sub, mul, div, le, le_refl, le_trans, le_total, of_mono, of_pos, zero_add,
    add_zero, add_mono, add_one, sub_le, mul_nonneg, mul_le, div_nonneg, div_le_one,
  }

  abbrev pub InUnit : F → Type 0
  InUnit x = (le (of_ℕ 0) x ≡ true) × (le x (of_ℕ 1) ≡ true)

  pub zero-InUnit : InUnit (of_ℕ 0)
  zero-InUnit = (le_refl (of_ℕ 0), of_mono 0 1 (omega arith))

  one-InUnit : InUnit (of_ℕ 1)
  one-InUnit = (of_mono 0 1 (omega arith), le_refl (of_ℕ 1))

  pub quotient-InUnit :
      (a : F) (n : ℕ)
      → 0 < n
      → le (of_ℕ 0) a ≡ true
      → le a (of_ℕ n) ≡ true
      → InUnit (div a (of_ℕ n))
  quotient-InUnit a zero h p q = elim h [ ]
  quotient-InUnit a (suc n) h p q =
      (div_nonneg a (of_ℕ (suc n)) p (of_pos n), div_le_one a (of_ℕ (suc n)) (of_pos n) q)

  pub InUnit-if :
      (b : Bool) (x y : F)
      → (b ≡ true → InUnit x)
      → (b ≡ false → InUnit y)
      → InUnit (if b then x else y)
  InUnit-if true x y h k = h refl
  InUnit-if false x y h k = k refl

  pub ratio-InUnit : (part whole : ℕ) → part ≤ whole → InUnit (ratio fl part whole)
  unfolding ratio
  ratio-InUnit part whole h =
      InUnit-if (ltb 0 whole) (div (of_ℕ part) (of_ℕ whole)) (of_ℕ 0)
        (λ e.
          quotient-InUnit (of_ℕ part) whole (ltb→lt 0 whole e) (of_mono 0 part (omega arith))
            (of_mono part whole h))
        (λ e. zero-InUnit)

  at_least_zero-InUnit : (x : F) → le x (of_ℕ 1) ≡ true → InUnit (at_least_zero fl x)
  at_least_zero-InUnit x h = InUnit-if (le (of_ℕ 0) x) x (of_ℕ 0) (λ e. (e, h)) (λ e. zero-InUnit)

  quotient_nonneg : (m n : ℕ) → 0 < n → le (of_ℕ 0) (div (of_ℕ m) (of_ℕ n)) ≡ true
  quotient_nonneg m zero h = elim h [ ]
  quotient_nonneg m (suc n) h =
      div_nonneg (of_ℕ m) (of_ℕ (suc n)) (of_mono 0 m (omega arith)) (of_pos n)

  span_pos : (span : ℤ) → ltb_ℤ (pos 0) span ≡ true → 0 < abs span
  span_pos (pos n) h = ground arith
  span_pos (negsuc n) h = ground arith

  span_alignment-InUnit : (gap : ℕ) (span : Option ℤ) → InUnit (span_alignment fl gap span)
  unfolding span_alignment
  span_alignment-InUnit gap none = one-InUnit
  span_alignment-InUnit gap (some span) =
      let loss : F = div (of_ℕ gap) (of_ℕ (abs span)) in
      InUnit-if (ltb_ℤ (pos 0) span) (at_least_zero fl (sub (of_ℕ 1) loss)) (of_ℕ 1)
        (λ e.
          at_least_zero-InUnit (sub (of_ℕ 1) loss)
            (sub_le (of_ℕ 1) loss (quotient_nonneg gap (abs span) (span_pos span e))))
        (λ e. one-InUnit)

  half-InUnit : InUnit (half fl)
  half-InUnit =
      quotient-InUnit (of_ℕ 1) 2 (omega arith) (of_mono 0 1 (omega arith))
        (of_mono 1 2 (omega arith))

  gap_alignment-InUnit : (q : SnapshotQuestion) (gap : ℕ) → InUnit (gap_alignment fl q gap)
  unfolding gap_alignment
  gap_alignment-InUnit q gap =
      InUnit-if (is_choice_scale q.type) _ _
        (λ e.
          InUnit-if (gap == 0) _ _ (λ z. one-InUnit)
            (λ z. InUnit-if (gap == 1) _ _ (λ o. half-InUnit) (λ o. zero-InUnit)))
        (λ e. span_alignment-InUnit gap (scale_span (scale_values q.options)))

  none≢some : {a : F} → ◌≡◌ {A = Option F} none (some a) → ⊥
  none≢some h = cc

  InUnit-some : (x a : F) → ◌≡◌ {A = Option F} (some x) (some a) → InUnit x → InUnit a
  InUnit-some x a h u = let e : x ≡ a = cc in rw (← e) u

  -- The alignment of an item lies from 0 to 1.
  pub item_alignment-InUnit :
      (q : SnapshotQuestion) (v : ℤ) (a : F) → item_alignment fl q v ≡ some a → InUnit a
  unfolding item_alignment
  item_alignment-InUnit q v a h = elim (Option-cases q.employer_value) [
    | inl e ↦ absurd (none≢some (rw (e, item_alignment) at h))
    | inr (w, e) ↦
        InUnit-some (gap_alignment fl q (abs (v -ℤ w))) a (rw (e, item_alignment) at h)
          (gap_alignment-InUnit q (abs (v -ℤ w)))
  ]

  -- The sum of the alignments stays from 0 to the number of items that it counts.
  IsTallied : Tally fl → Type 0
  IsTallied t = (le (of_ℕ 0) t.total ≡ true) × (le t.total (of_ℕ t.answered) ≡ true)

  add_item-IsTallied :
      (q : SnapshotQuestion) (e v : ℤ) (a : F) (t : Tally fl)
      → InUnit a
      → IsTallied t
      → IsTallied (add_item fl q e v a t)
  unfolding IsTallied
  add_item-IsTallied q e v a t (p, r) (lo, hi) = (
    rw (zero_add (of_ℕ 0)) at (add_mono (of_ℕ 0) t.total (of_ℕ 0) a lo p),
    rw add-one (
        le_trans (add t.total a) (add (of_ℕ t.answered) (of_ℕ 1)) (of_ℕ (suc t.answered))
          (add_mono t.total (of_ℕ t.answered) a (of_ℕ 1) hi r) (add_one t.answered)),
  )

  align_question-IsTallied :
      (answers : Answers) (q : SnapshotQuestion) (t : Tally fl)
      → IsTallied t
      → IsTallied (align_question fl answers q t)
  unfolding align_question
  align_question-IsTallied answers q t h = rw align_question_lem (step (compared answers q))
    where
      step : (c : Option (ℤ × ℤ)) → IsTallied (add_compared fl q c t)
      step none = h
      step (some (e, v)) =
          add_item-IsTallied q e v (gap_alignment fl q (abs (v -ℤ e))) t
            (gap_alignment-InUnit q (abs (v -ℤ e))) h

  align_questions-IsTallied :
      (answers : Answers) (t : Tally fl) (qs : List SnapshotQuestion)
      → IsTallied t
      → IsTallied (align_questions fl answers t qs)
  unfolding align_questions
  align_questions-IsTallied answers t [] h = h
  align_questions-IsTallied answers t (q ∷ qs) h =
      align_questions-IsTallied answers (align_question fl answers q t) qs
        (align_question-IsTallied answers q t h)

  aligned_section-InUnit :
      (g : Group F) (t : Tally fl) → IsTallied t → InUnit (aligned_section fl g t).score
  unfolding IsTallied
  aligned_section-InUnit g t (lo, hi) =
      InUnit-if (ltb 0 t.answered) (div t.total (of_ℕ t.answered)) (of_ℕ 0)
        (λ e. quotient-InUnit t.total t.answered (ltb→lt 0 t.answered e) lo hi) (λ e. zero-InUnit)

  abbrev pub ScoreInUnit : SectionScore F → Type 0
  ScoreInUnit s = InUnit s.score

  start-IsTallied :
      (flags : List AlignmentFlag)
      → IsTallied (record { total = of_ℕ 0; answered = 0; flags = flags })
  unfolding IsTallied
  start-IsTallied flags = (le_refl (of_ℕ 0), le_refl (of_ℕ 0))

  pub aligned_sections-InUnit :
      (answers : Answers) (n : ℕ) (flags : List AlignmentFlag) (gs : List (Group F))
      → All ScoreInUnit (aligned_sections fl answers n flags gs).0
  unfolding aligned_sections
  aligned_sections-InUnit answers n flags [] = tt
  aligned_sections-InUnit answers n flags (g ∷ gs) =
      let t : Tally fl =
        align_questions fl answers (record { total = of_ℕ 0; answered = 0; flags = flags })
          g.questions in
      (
        aligned_section-InUnit g t
            (align_questions-IsTallied answers _ g.questions (start-IsTallied flags)),
        aligned_sections-InUnit answers (n + t.answered) t.flags gs,
      )

  pub correct_sections-InUnit :
      (answers : Answers) (counts : ℕ × ℕ) (gs : List (Group F))
      → All ScoreInUnit (correct_sections fl answers counts gs).0
  unfolding correct_sections
  correct_sections-InUnit answers (c, a) [] = tt
  correct_sections-InUnit answers (c, a) (g ∷ gs) =
      let (correct, answered) = tally answers (0, 0) g.questions in
      (
        ratio-InUnit correct (length g.questions) (
            ground (
              arith,
              tally_lem answers 0 0 g.questions,
              right-le-given answers g.questions,
              given-le-length answers g.questions,
            )),
        correct_sections-InUnit answers (c + correct, a + answered) gs,
      )
