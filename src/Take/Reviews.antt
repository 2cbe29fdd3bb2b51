-- ===== src/Take/Reviews.antt =====
-- Proofs about the review of a test (invitation.mapper.ts) and the score of it (scoring.ts).
use tmx_assessment.Prelude.{
  ℕ, suc, ◌≡◌, refl, arith, Bool, true, false, none, some, List, [], ◌∷◌, All, String, find?,
  count_if, Option-cases, Bool-cases, inl, inr,
}
use tmx_assessment.Prelude.Text.{filled, eq_iff}
use tmx_assessment.Prelude.Dict.{Dict, get}
use tmx_assessment.Canonical.Rules.{is_scale}
use tmx_assessment.Canonical.Snapshot.{SnapshotOption, SnapshotQuestion}
use tmx_assessment.Canonical.Scoring.Groups.{Answers, chosen_option}
use tmx_assessment.Canonical.Scoring.Counts.{is_right, right_count}
use tmx_assessment.Take.Results.{AnswerReview, picked, review, reviews, has_id}

-- A review that marks its answer as correct
abbrev pub marks_correct : AnswerReview → Bool
marks_correct r = elim r.is_correct [ none ↦ false | some b ↦ b ]

-- Every question is a right-answer question, and no option has an empty id.
abbrev pub IsChoice : SnapshotQuestion → Type 0
IsChoice q = (is_scale q.type ≡ false) × All (λ o. filled o.id ≡ true) q.options

unnamed :
    (id : String) (options : List SnapshotOption)
    → filled id ≡ false
    → All (λ o. filled o.id ≡ true) options
    → find? (has_id id) options ≡ none
unnamed id [] h a = refl
unnamed id (o ∷ options) h a = ground (arith, eq_iff o.id id, unnamed id options h a.1)

picked_lem :
    (chosen : Answers) (q : SnapshotQuestion)
    → All (λ o. filled o.id ≡ true) q.options
    → picked (get q.id chosen) q.options ≡ chosen_option q chosen
unfolding picked chosen_option
picked_lem chosen q a = elim (Option-cases (get q.id chosen)) [
  | inl e ↦ rw (picked, chosen_option, e) refl
  | inr (id, e) ↦ elim (Bool-cases (filled id)) [
    | inl f ↦ rw (picked, chosen_option, e) (rw f refl)
    | inr f ↦ rw (picked, chosen_option, e) (rw f (unnamed id q.options f a))
  ]
]

review_lem :
    (chosen : Answers) (sections : Dict String) (index : ℕ) (q : SnapshotQuestion)
    → IsChoice q
    → marks_correct (review q index (get q.id chosen) sections) ≡ is_right (chosen_option q chosen)
unfolding review
review_lem chosen sections index q c = rw (← picked_lem chosen q c.1) (rw c.0 refl)

-- In a test whose questions have a right answer and whose options have ids, the review marks as many
-- answers correct as the score counts.
pub reviews_count :
    (chosen : Answers) (sections : Dict String) (index : ℕ) (qs : List SnapshotQuestion)
    → All IsChoice qs
    → count_if marks_correct (reviews chosen sections index qs) ≡ right_count chosen qs
unfolding reviews
reviews_count chosen sections index [] c = refl
reviews_count chosen sections index (q ∷ qs) c =
    rw (review_lem chosen sections index q c.0, reviews_count chosen sections (suc index) qs c.1)
      refl
