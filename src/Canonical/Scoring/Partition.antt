-- ===== src/Canonical/Scoring/Partition.antt =====
-- Proofs about `groups` of scoring.ts: the questions of the groups.
use mathlib.Core.List.Perm
use tmx_assessment.Prelude.{
  ◌≡◌, refl, ap, false, inl, inr, Bool-cases, List, [], ◌∷◌, ◌++◌, map, Perm, perm_of_eq, concat,
  concat-map_nil, filter, length, ◌<◌, All, All-append, arith,
}
use tmx_assessment.Prelude.Dict.{Dict, set, values, All-set}
use tmx_assessment.Prelude.Buckets.{all_values, place_all, place_all-perm}
use tmx_assessment.Canonical.Snapshot.{SnapshotSection, SnapshotQuestion, AssessmentSnapshot}
use tmx_assessment.Canonical.Scoring.Groups.{
  Group, push_question, section_group, unsectioned, section_groups, has_questions, groups,
}

module _ {F : Type 0} where
  -- The questions of groups, in the order of the groups.
  abbrev pub grouped : List (Group F) → List SnapshotQuestion
  grouped gs = concat (map (λ g. g.questions) gs)

  abbrev IsBare : Group F → Type 0
  IsBare g = g.questions ≡ []

  section_groups-IsBare :
      (m : Dict (Group F)) (ss : List (SnapshotSection F))
      → All IsBare (values m)
      → All IsBare (values (section_groups m ss))
  unfolding section_groups
  section_groups-IsBare m [] a = a
  section_groups-IsBare m (s ∷ ss) a =
      section_groups-IsBare (set s.id (section_group s) m) ss
        (All-set IsBare s.id (section_group s) m refl a)

  bare_of : (g : Group F) → has_questions g ≡ false → g.questions ≡ []
  bare_of g h = ground arith

  grouped-filter : (gs : List (Group F)) → grouped (filter has_questions gs) ≡ grouped gs
  grouped-filter [] = refl
  grouped-filter (g ∷ gs) = elim (Bool-cases (has_questions g)) [
    | inl e ↦ rw e (ap (λ (l : List SnapshotQuestion). g.questions ++ l) (grouped-filter gs))
    | inr e ↦ rw e (rw (bare_of g e) (grouped-filter gs))
  ]

  -- The questions of the groups are those of the test, each as often.
  pub groups-perm :
      (snapshot : AssessmentSnapshot F) → Perm (grouped (groups snapshot)) snapshot.questions
  unfolding groups
  groups-perm snapshot =
      let start : Dict (Group F) × Group F = (section_groups [] snapshot.sections, unsectioned) in
      let bare : grouped (all_values start) ≡ [] =
        concat-map_nil (λ g. g.questions) (all_values start)
          (All-append IsBare (values start.0) (unsectioned ∷ [])
            (section_groups-IsBare [] snapshot.sections tt) (refl, tt)) in
      let placed : Dict (Group F) × Group F =
        place_all push_question (λ q. q.section_id) start snapshot.questions in
      Perm.trans (perm_of_eq (grouped-filter (all_values placed))) (
        Perm.trans
          (place_all-perm push_question (λ q. q.section_id) (λ g. g.questions) (λ g q. refl) start
            snapshot.questions)
          (perm_of_eq (ap (λ (l : List SnapshotQuestion). l ++ snapshot.questions) bare)))

  kept_nonempty :
      (gs : List (Group F)) → All (λ g. 0 < length g.questions) (filter has_questions gs)
  kept_nonempty [] = tt
  kept_nonempty (g ∷ gs) = elim (Bool-cases (has_questions g)) [
    | inl e ↦ rw e (ground arith, kept_nonempty gs)
    | inr e ↦ rw e (kept_nonempty gs)
  ]

  -- No group is empty.
  pub groups-nonempty :
      (snapshot : AssessmentSnapshot F) → All (λ g. 0 < length g.questions) (groups snapshot)
  unfolding groups
  groups-nonempty snapshot = kept_nonempty (
      all_values (
        place_all push_question (λ q. q.section_id)
          (section_groups [] snapshot.sections, unsectioned) snapshot.questions))
