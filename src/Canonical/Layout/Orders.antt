-- ===== src/Canonical/Layout/Orders.antt =====
-- Proofs about `orderQuestions` of layout.ts: the blocks and the order of the questions.
use mathlib.Core.List.{map-id}
use mathlib.Core.List.Perm
use tmx_assessment.Prelude.{
  ◌≡◌, refl, sym, ap, List, [], ◌∷◌, ◌++◌, map, Perm, perm_of_eq, concat, All, concat-map_nil,
  All-append, Pairs,
}
use tmx_assessment.Prelude.Dict.{Dict, set, values, All-set}
use tmx_assessment.Prelude.Buckets.{all_values, place_all, place_all-perm}
use tmx_assessment.Schema.{QuestionOrder, fixed, shuffle_within_section, shuffle_all}
use tmx_assessment.Canonical.Snapshot.{SnapshotSection, SnapshotQuestion, AssessmentSnapshot}
use tmx_assessment.Canonical.Layout.{
  Random, push_item, section_blocks, blocks, effective_order, shuffled, shuffle_blocks, order_by,
  order_questions,
}
use tmx_assessment.Canonical.Layout.Shuffle.{shuffled-perm}

abbrev IsBare : List SnapshotQuestion → Type 0
IsBare qs = qs ≡ []

module _ {F : Type 0} where
  section_blocks-IsBare :
      (m : Dict (List SnapshotQuestion)) (ss : List (SnapshotSection F))
      → All IsBare (values m)
      → All IsBare (values (section_blocks m ss))
  unfolding section_blocks
  section_blocks-IsBare m [] a = a
  section_blocks-IsBare m (s ∷ ss) a =
      section_blocks-IsBare (set s.id [] m) ss (All-set IsBare s.id [] m refl a)

  -- The blocks hold the questions of the test, each as often.
  pub blocks-perm :
      (snapshot : AssessmentSnapshot F) → Perm (concat (blocks snapshot)) snapshot.questions
  unfolding blocks
  blocks-perm snapshot =
      let start : Dict (List SnapshotQuestion) × List SnapshotQuestion =
        (section_blocks [] snapshot.sections, []) in
      let bare : concat (map (λ qs. qs) (all_values start)) ≡ [] =
        concat-map_nil (λ qs. qs) (all_values start)
          (All-append IsBare (values start.0) ([] ∷ [])
            (section_blocks-IsBare [] snapshot.sections tt) (refl, tt)) in
      let placed = place_all push_item (λ q. q.section_id) start snapshot.questions in
      Perm.trans (perm_of_eq (ap concat (sym (map-id (all_values placed))))) (
        Perm.trans
          (place_all-perm push_item (λ q. q.section_id) (λ qs. qs) (λ qs q. refl) start
            snapshot.questions)
          (perm_of_eq (ap (λ (l : List SnapshotQuestion). l ++ snapshot.questions) bare)))

module _ (r : Random) where
  open r use {State, draw}

  -- The shuffled blocks in their order: each is a permutation of its block.
  shuffle_blocks-Pairs :
      (s : State) (bs : List (List SnapshotQuestion))
      → (shuffles : List (List SnapshotQuestion)) × ((shuffle_blocks r s bs).0 ≡ concat shuffles)
        × Pairs (λ b' b. Perm b' b) shuffles bs
  unfolding shuffle_blocks
  shuffle_blocks-Pairs s [] = ([], refl, tt)
  shuffle_blocks-Pairs s (b ∷ bs) =
      let (here, s') = shuffled r s b in
      let (rest, e, pairs) = shuffle_blocks-Pairs s' bs in
      (here ∷ rest, ap (λ (l : List SnapshotQuestion). here ++ l) e, (shuffled-perm r s b, pairs))

  concat-perm :
      (xs ys : List (List SnapshotQuestion))
      → Pairs (λ x y. Perm x y) xs ys
      → Perm (concat xs) (concat ys)
  concat-perm [] [] p = Perm.refl []
  concat-perm [] (y ∷ ys) p = elim p [ ]
  concat-perm (x ∷ xs) [] p = elim p [ ]
  concat-perm (x ∷ xs) (y ∷ ys) p = Perm.append p.0 (concat-perm xs ys p.1)

  module _ {F : Type 0} where
    order_by-perm :
        (order : QuestionOrder) (s : State) (snapshot : AssessmentSnapshot F)
        → Perm (order_by r order s snapshot).0 snapshot.questions
    unfolding order_by
    order_by-perm fixed s snapshot = Perm.refl snapshot.questions
    order_by-perm shuffle_all s snapshot = shuffled-perm r s snapshot.questions
    order_by-perm shuffle_within_section s snapshot =
        let (shuffles, e, pairs) = shuffle_blocks-Pairs s (blocks snapshot) in
        Perm.trans (perm_of_eq e)
          (Perm.trans (concat-perm shuffles (blocks snapshot) pairs) (blocks-perm snapshot))

    pub order_questions-perm :
        (s : State) (snapshot : AssessmentSnapshot F)
        → Perm (order_questions r s snapshot).0 snapshot.questions
    unfolding order_questions
    order_questions-perm s snapshot = order_by-perm (effective_order snapshot) s snapshot
