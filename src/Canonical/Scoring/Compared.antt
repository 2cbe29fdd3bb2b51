-- ===== src/Canonical/Scoring/Compared.antt =====
-- Proofs about scoring.ts: one round of the alignment loop as one equation.
use tmx_assessment.Prelude.{◌≡◌, arith, Option, none, some}
use tmx_assessment.Prelude.Int.{ℤ, ◌-ℤ◌, abs}
use tmx_assessment.Float.{Float}
use tmx_assessment.Canonical.Snapshot.{SnapshotOption, SnapshotQuestion}
use tmx_assessment.Canonical.Scoring.Groups.{Answers, chosen_option}
use tmx_assessment.Canonical.Scoring.Alignment.{
  Tally, gap_alignment, item_alignment, add_item, align_question,
}

-- The role profile's value and the candidate's, where there are both.
abbrev both : Option ℤ → Option ℤ → Option (ℤ × ℤ)
both (some e) (some v) = some (e, v)
both _ _ = none

abbrev value_of : Option SnapshotOption → Option ℤ
value_of none = none
value_of (some o) = o.value

unfoldable pub compared : Answers → SnapshotQuestion → Option (ℤ × ℤ)
compared answers q = both q.employer_value (value_of (chosen_option q answers))

module _ (fl : Float) where
  abbrev pub add_compared : SnapshotQuestion → Option (ℤ × ℤ) → Tally fl → Tally fl
  add_compared q none t = t
  add_compared q (some (e, v)) t = add_item fl q e v (gap_alignment fl q (abs (v -ℤ e))) t

  pub align_question_lem :
      (answers : Answers) (q : SnapshotQuestion) (t : Tally fl)
      → align_question fl answers q t ≡ add_compared q (compared answers q) t
  unfolding align_question compared item_alignment
  align_question_lem answers q t = ground arith
