-- ===== src/Canonical/Scoring/Groups.antt =====
-- scoring.ts: what a score holds, the chosen option of a question, the score band, and the questions
-- by section.
use tmx_assessment.Prelude.{
  ℕ, String, Bool, true, false, ltb, if◌then◌else◌, Option, none, some, List, [], ◌∷◌, ◌++◌, find?,
  filter,
}
use mathlib.Core.Option
use tmx_assessment.Prelude.Int.{ℤ}
use tmx_assessment.Prelude.Text.{◌===◌, filled}
use tmx_assessment.Prelude.Dict.{Dict, get, set}
use tmx_assessment.Prelude.Sort.{sort}
use tmx_assessment.Prelude.Buckets.{place_all, all_values}
use tmx_assessment.Float.{Float, lt}
use tmx_assessment.Canonical.Snapshot.{
  SnapshotSection, SnapshotOption, SnapshotQuestion, SnapshotBand, AssessmentSnapshot,
}

-- Question id to chosen option id.
abbrev pub Answers : Type 0
Answers = Dict String

pub record SectionScore (F : Type 0) : Type 0 where
  pub section_id : Option String
  pub name : String
  pub score : F
  pub weight : Option F
  pub correct : Option ℕ
  pub answered : ℕ
  pub total : ℕ

pub data Direction : Type 0 where
  candidate_wants_more role_offers_more : Direction

pub record AlignmentFlag : Type 0 where
  pub question_id : String
  pub ref : Option String
  pub stem : String
  pub employer_value : ℤ
  pub candidate_value : ℤ
  pub gap : ℤ
  pub direction : Direction

pub record ScoreResult (F : Type 0) : Type 0 where
  pub score : F
  pub band_label : Option String
  pub correct_count : Option ℕ
  pub answered_count : ℕ
  pub question_count : ℕ
  pub sections : List (SectionScore F)
  pub flags : List AlignmentFlag

-- An empty option id counts as no answer.
unfoldable pub chosen_option : SnapshotQuestion → Answers → Option SnapshotOption
unfolding get
chosen_option question answers = elim (get question.id answers) [
  | none ↦ none
  | some option_id ↦
      if filled option_id then find? (λ o. o.id === option_id) question.options else none
]

pub record GroupSection (F : Type 0) : Type 0 where
  pub section_id : Option String
  pub name : String
  pub weight : Option F

pub record Group (F : Type 0) : Type 0 where
  pub section : GroupSection F
  pub questions : List SnapshotQuestion

module _ {F : Type 0} where
  abbrev pub push_question : Group F → SnapshotQuestion → Group F
  push_question g q = record g { questions = g.questions ++ q ∷ [] }

  abbrev pub section_group : SnapshotSection F → Group F
  section_group s = record {
    section = record { section_id = some s.id; name = s.name; weight = s.weight };
    questions = [];
  }

  abbrev pub unsectioned : Group F
  unsectioned = record {
    section = record { section_id = none; name = "Other questions"; weight = none };
    questions = [];
  }

  unfoldable pub section_groups : Dict (Group F) → List (SnapshotSection F) → Dict (Group F)
  unfolding set
  section_groups m [] = m
  section_groups m (s ∷ ss) = section_groups (set s.id (section_group s) m) ss

  abbrev pub has_questions : Group F → Bool
  has_questions g = elim g.questions [ [] ↦ false | q ∷ qs ↦ true ]

  -- Questions by section, in section order, then any without a section. Empty groups are left out.
  unfoldable pub groups : AssessmentSnapshot F → List (Group F)
  unfolding section_groups place_all
  groups snapshot = filter has_questions (
      all_values (
        place_all push_question (λ q. q.section_id)
          (section_groups [] snapshot.sections, unsectioned) snapshot.questions))

module _ (fl : Float) where
  open fl use {F, of_ℕ, add, div, le}

  unfoldable pub ratio : ℕ → ℕ → F
  ratio part whole = if ltb 0 whole then div (of_ℕ part) (of_ℕ whole) else of_ℕ 0

  -- 1e-9
  abbrev pub epsilon : F
  epsilon = div (of_ℕ 1) (of_ℕ 1_000_000_000)

  abbrev pub band_before : SnapshotBand F → SnapshotBand F → Bool
  band_before a b = lt fl b.min_score a.min_score

  -- The band with the highest minimum at or below the score.
  unfoldable pub band_for : List (SnapshotBand F) → F → Option (SnapshotBand F)
  unfolding sort
  band_for bands score =
      find? (λ band. le band.min_score (add score epsilon)) (sort band_before bands)

  unfoldable pub band_label_for : List (SnapshotBand F) → F → Option String
  unfolding band_for
  band_label_for bands score = Option.map (λ band. band.label) (band_for bands score)
