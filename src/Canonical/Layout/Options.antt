-- ===== src/Canonical/Layout/Options.antt =====
-- Proofs about `orderOptions` and `buildLayout` of layout.ts: the options of a question, and the layout.
use mathlib.Core.List.Perm
use tmx_assessment.Prelude.{
  suc, ◌≡◌, refl, sym, ap, subst, inl, inr, Bool, true, false, Bool-cases, none, some, List, [],
  ◌∷◌, ◌++◌, map, Perm, perm_of_eq, length, Option-cases, Pairs, arith, ltb,
}
use tmx_assessment.Canonical.Snapshot.{SnapshotOption, SnapshotQuestion, AssessmentSnapshot}
use tmx_assessment.Canonical.Layout.{
  Random, LayoutEntry, last?, init, shuffled, order_questions, with_last, arrange, order_options,
  layout_entries, build_layout,
}
use tmx_assessment.Canonical.Layout.Orders.{order_questions-perm}
use tmx_assessment.Canonical.Layout.Shuffle.{shuffled-perm}

init_last :
    (xs : List SnapshotOption) (x : SnapshotOption) → last? xs ≡ some x → init xs ++ x ∷ [] ≡ xs
init_last [] x h = cc
init_last (y ∷ []) x h = let e : y ≡ x = cc in rw e refl
init_last (y ∷ z ∷ zs) x h = ap (λ (l : List SnapshotOption). y ∷ l) (init_last (z ∷ zs) x h)

last-append : (xs : List SnapshotOption) (x : SnapshotOption) → last? (xs ++ x ∷ []) ≡ some x
last-append [] x = refl
last-append (y ∷ []) x = refl
last-append (y ∷ z ∷ zs) x = last-append (z ∷ zs) x

last_cons : (x : SnapshotOption) (xs : List SnapshotOption) → ¬ (last? (x ∷ xs) ≡ none)
last_cons x [] h = cc
last_cons x (y ∷ ys) h = last_cons y ys h

last_none : (xs : List SnapshotOption) → last? xs ≡ none → xs ≡ []
last_none [] h = refl
last_none (x ∷ xs) h = absurd (last_cons x xs h)

last-with_last :
    (moved xs : List SnapshotOption)
    → ltb 1 (length xs) ≡ true
    → last? (with_last moved (last? xs)) ≡ last? xs
last-with_last moved [] h = cc
last-with_last moved (x ∷ xs) h = elim (Option-cases (last? (x ∷ xs))) [
  | inl e ↦ absurd (last_cons x xs e)
  | inr (y, e) ↦ rw e (last-append moved y)
]

module _ (r : Random) where
  open r use {State, draw}

  with_last-perm :
      (s : State) (xs : List SnapshotOption)
      → Perm (with_last (shuffled r s (init xs)).0 (last? xs)) xs
  with_last-perm s xs = elim (Option-cases (last? xs)) [
    | inl e ↦ rw (last_none xs e) (shuffled-perm r s [])
    | inr (x, e) ↦ rw e (
        Perm.trans (Perm.append_right (x ∷ []) (shuffled-perm r s (init xs)))
          (perm_of_eq (init_last xs x e)))
  ]

  shuffled_short :
      (s : State) (xs : List SnapshotOption) → ltb 1 (length xs) ≡ false → (shuffled r s xs).0 ≡ xs
  unfolding shuffled
  shuffled_short s [] h = refl
  shuffled_short s (x ∷ []) h = refl
  shuffled_short s (x ∷ y ∷ ys) h = absurd (omega (arith, two_more ys h))
    where
      two_more : (ys : List SnapshotOption) → ltb 1 (suc (suc (length ys))) ≡ false → ⊥
      two_more ys k = ground arith

  arrange-perm :
      (shuffle keep_last : Bool) (s : State) (xs : List SnapshotOption)
      → Perm (arrange r shuffle keep_last s xs).0 xs
  unfolding arrange
  arrange-perm false keep_last s xs = Perm.refl xs
  arrange-perm true false s xs = shuffled-perm r s xs
  arrange-perm true true s xs = elim (Bool-cases (ltb 1 (length xs))) [
    | inl e ↦ rw e (with_last-perm s xs)
    | inr e ↦ rw e (shuffled-perm r s xs)
  ]

  arrange-last :
      (shuffle : Bool) (s : State) (xs : List SnapshotOption)
      → last? (arrange r shuffle true s xs).0 ≡ last? xs
  unfolding arrange
  arrange-last false s xs = refl
  arrange-last true s xs = elim (Bool-cases (ltb 1 (length xs))) [
    | inl e ↦ rw e (last-with_last (shuffled r s (init xs)).0 xs e)
    | inr e ↦ rw e (ap last? (shuffled_short s xs e))
  ]

  -- A question that keeps its last option in place shows it last, whether the others are shuffled or not.
  order_options-last :
      (s : State) (q : SnapshotQuestion)
      → q.keep_last_option_fixed ≡ true
      → last? (order_options r s q).0 ≡ last? q.options
  unfolding order_options
  order_options-last s q h =
      subst (λ keep. last? (arrange r q.shuffle_options keep s q.options).0 ≡ last? q.options)
        (sym h) (arrange-last q.shuffle_options s q.options)

  -- One entry of the layout shows its question and all of its options.
  abbrev pub EntryFor : LayoutEntry → SnapshotQuestion → Type 0
  EntryFor entry q = (entry.question_id ≡ q.id) × Perm entry.option_ids (map (λ o. o.id) q.options)

  layout_entries-Pairs :
      (s : State) (qs : List SnapshotQuestion) → Pairs EntryFor (layout_entries r s qs).0 qs
  unfolding layout_entries order_options
  layout_entries-Pairs s [] = tt
  layout_entries-Pairs s (q ∷ qs) =
      let (options, s') = order_options r s q in
      (
        (
          refl,
          Perm.map (λ o. o.id)
              (arrange-perm q.shuffle_options q.keep_last_option_fixed s q.options),
        ),
        layout_entries-Pairs s' qs,
      )

  -- The layout shows the questions of the test, each exactly once, in some order, and with each question
  -- all of its options, each exactly once.
  pub build_layout_complete :
      {F : Type 0} (s : State) (snapshot : AssessmentSnapshot F)
      → (order : List SnapshotQuestion) × Perm order snapshot.questions
        × Pairs EntryFor (build_layout r s snapshot).0.questions order
  unfolding build_layout
  build_layout_complete s snapshot =
      let (questions, s') = order_questions r s snapshot in
      (questions, order_questions-perm r s snapshot, layout_entries-Pairs s' questions)
