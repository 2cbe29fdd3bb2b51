-- ===== src/Canonical/Layout.antt =====
-- layout.ts: the order in which one candidate sees the questions, and the options of each. The random
-- source is an interface; `mulberry32` is an instance of it. The proofs are in the children.
pub mod Shuffle
pub mod Orders
pub mod Options
pub mod Mulberry
use tmx_assessment.Prelude.{
  ℕ, zero, suc, ◌-◌, ◌<◌, ◌≡◌, String, Bool, true, false, ◌&&◌, ltb, if◌then◌else◌, Option, none,
  some, List, [], ◌∷◌, ◌++◌, map, length, get_elem?, set as set_at,
}
use tmx_assessment.Prelude.Dict.{Dict, set}
use tmx_assessment.Prelude.Buckets.{place_all, all_values}
use tmx_assessment.Schema.{
  ScoringMethod, alignment, QuestionOrder, fixed, shuffle_within_section, shuffle_all, is_alignment,
}
use tmx_assessment.Canonical.Snapshot.{
  SnapshotSection, SnapshotOption, SnapshotQuestion, AssessmentSnapshot,
}

-- A random source: `draw n` is `Math.floor(random() * n)`. Since `random()` lies in [0, 1), a draw from
-- n values is below n.
pub record Random : Type 1 where
  pub State : Type 0
  pub draw : ℕ → State → ℕ × State
  pub draw-lt : (n : ℕ) (s : State) → 0 < n → (draw n s).0 < n

pub record LayoutEntry : Type 0 where
  pub question_id : String
  pub option_ids : List String

pub record AttemptLayout : Type 0 where
  pub version : ℕ
  pub questions : List LayoutEntry

module _ {ℓ} {A : Type ℓ} where
  -- `[copy[i], copy[j]] = [copy[j], copy[i]]`, with both indices in range
  unfoldable pub swap : ℕ → ℕ → List A → List A
  swap i j copy = elim (get_elem? copy i) [
    | none ↦ copy
    | some a ↦ elim (get_elem? copy j) [ none ↦ copy | some b ↦ set_at (set_at copy i b) j a ]
  ]

  abbrev pub last? : List A → Option A
  last? [] = none
  last? (x ∷ []) = some x
  last? (x ∷ y ∷ ys) = last? (y ∷ ys)

  -- `slice(0, -1)`
  abbrev pub init : List A → List A
  init [] = []
  init (x ∷ []) = []
  init (x ∷ y ∷ ys) = x ∷ init (y ∷ ys)

abbrev pub push_item : List SnapshotQuestion → SnapshotQuestion → List SnapshotQuestion
push_item block q = block ++ q ∷ []

unfoldable pub section_blocks :
    {F : Type 0}
    → Dict (List SnapshotQuestion)
    → List (SnapshotSection F)
    → Dict (List SnapshotQuestion)
unfolding set
section_blocks m [] = m
section_blocks m (s ∷ ss) = section_blocks (set s.id [] m) ss

-- Blocks in section order, then any questions without a section.
unfoldable pub blocks : {F : Type 0} → AssessmentSnapshot F → List (List SnapshotQuestion)
unfolding section_blocks place_all
blocks snapshot = all_values (
    place_all push_item (λ q. q.section_id) (section_blocks [] snapshot.sections, [])
      snapshot.questions)

abbrev pub effective : QuestionOrder → Bool → QuestionOrder
effective shuffle_all true = shuffle_within_section
effective order _ = order

-- Motivation items are shuffled within their dimension, never across them.
unfoldable pub effective_order : {F : Type 0} → AssessmentSnapshot F → QuestionOrder
effective_order snapshot = effective snapshot.question_order (is_alignment snapshot.scoring_method)

-- The last option, where there is one, behind the others.
abbrev pub with_last : List SnapshotOption → Option SnapshotOption → List SnapshotOption
with_last options none = options
with_last options (some last) = options ++ last ∷ []

module _ (r : Random) where
  open r use {State, draw}

  -- Fisher–Yates: the loop from `i` down to 1.
  unfoldable pub shuffle_from {ℓ} : {A : Type ℓ} → ℕ → State → List A → List A × State
  unfolding swap
  shuffle_from zero s copy = (copy, s)
  shuffle_from (suc i) s copy =
      let (j, s') = draw (suc (suc i)) s in shuffle_from i s' (swap (suc i) j copy)

  unfoldable pub shuffled {ℓ} : {A : Type ℓ} → State → List A → List A × State
  unfolding shuffle_from
  shuffled s items = shuffle_from (length items - 1) s items

  unfoldable pub shuffle_blocks :
      State → List (List SnapshotQuestion) → List SnapshotQuestion × State
  unfolding shuffled
  shuffle_blocks s [] = ([], s)
  shuffle_blocks s (block ∷ more) =
      let (here, s') = shuffled s block in
      let (rest, s'') = shuffle_blocks s' more in (here ++ rest, s'')

  order_by :
      {F : Type 0} → QuestionOrder → State → AssessmentSnapshot F → List SnapshotQuestion × State
  unfolding shuffled shuffle_blocks blocks
  order_by fixed s snapshot = (snapshot.questions, s)
  order_by shuffle_all s snapshot = shuffled s snapshot.questions
  order_by shuffle_within_section s snapshot = shuffle_blocks s (blocks snapshot)

  unfoldable pub order_questions :
      {F : Type 0} → State → AssessmentSnapshot F → List SnapshotQuestion × State
  unfolding order_by effective_order
  order_questions s snapshot = order_by (effective_order snapshot) s snapshot

  unfoldable pub arrange : Bool → Bool → State → List SnapshotOption → List SnapshotOption × State
  unfolding shuffled
  arrange shuffle keep_last s options =
      if shuffle
      then (if keep_last && ltb 1 (length options)
          then (let (moved, s') = shuffled s (init options) in
              (with_last moved (last? options), s'))
          else shuffled s options)
      else (options, s)

  unfoldable pub order_options : State → SnapshotQuestion → List SnapshotOption × State
  unfolding arrange
  order_options s question =
      arrange question.shuffle_options question.keep_last_option_fixed s question.options

  unfoldable pub layout_entries : State → List SnapshotQuestion → List LayoutEntry × State
  unfolding order_options
  layout_entries s [] = ([], s)
  layout_entries s (q ∷ qs) =
      let (options, s') = order_options s q in
      let (rest, s'') = layout_entries s' qs in
      (record { question_id = q.id; option_ids = map (λ o. o.id) options } ∷ rest, s'')

  unfoldable pub build_layout : {F : Type 0} → State → AssessmentSnapshot F → AttemptLayout × State
  unfolding order_questions layout_entries
  build_layout s snapshot =
      let (questions, s') = order_questions s snapshot in
      let (entries, s'') = layout_entries s' questions in
      (record { version = 1; questions = entries }, s'')
