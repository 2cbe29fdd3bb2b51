-- ===== src/Canonical/Documents.antt =====
-- canonical/document-rules.ts: what stops a canonical document from being imported.
use Prim.Native.String.{◌++◌ as append}
use tmx_assessment.Prelude.{
  ℕ, suc, String, Bool, true, false, ◌&&◌, not, Option, none, some, List, [], ◌∷◌, ◌++◌, map, any,
  if◌then◌else◌,
}
use tmx_assessment.Prelude.Text.{◌===◌, filled}
use tmx_assessment.Float.{Float, lt}
use tmx_assessment.Schema.{ScoringMethod}
use tmx_assessment.Canonical.Questions.{CanonicalQuestion, normalize_question}
use tmx_assessment.Canonical.Questions.Problems.{question_problems}
use tmx_assessment.Canonical.Slugs.{Unicode}
use tmx_assessment.Canonical.Mapper.{
  CanonicalSection, CanonicalBand, CanonicalAssessment, question_name,
}

-- The set of a section's key and name, without regard to case
abbrev pub names_of_section : (lower : String → String) → (key name : String) → List String
names_of_section lower key name =
    if lower key === lower name then lower key ∷ [] else lower key ∷ lower name ∷ []

-- The loop over the names of one section: the problems, and the names seen.
unfoldable pub add_names : List String → List String → List String × List String
add_names seen [] = ([], seen)
add_names seen (name ∷ names) =
    let rest : List String × List String = add_names (name ∷ seen) names in
    (
      if any (λ s. s === name) seen
          then append "Two sections are called \"" (append name "\".") ∷ rest.0
          else rest.0,
      rest.1,
    )

abbrev pub is_unknown_section : (lower : String → String) → List String → Option String → Bool
is_unknown_section lower seen none = false
is_unknown_section lower seen (some section) =
    filled section && not (any (λ s. s === lower section) seen)

abbrev pub section_text : Option String → String
section_text none = "null"
section_text (some section) = section

module _ (u : Unicode) {F : Type 0} where
  unfoldable pub section_problems :
      List String → List (CanonicalSection F) → List String × List String
  unfolding add_names
  section_problems seen [] = ([], seen)
  section_problems seen (s ∷ ss) =
      let first : List String × List String =
        add_names seen (names_of_section u.lower s.key s.name) in
      let rest : List String × List String = section_problems first.1 ss in
      (first.0 ++ rest.0, rest.1)

unfoldable pub document_question_problems :
    Unicode → List String → ScoringMethod → ℕ → List CanonicalQuestion → List String
unfolding normalize_question question_name question_problems
document_question_problems u seen method index [] = []
document_question_problems u seen method index (raw ∷ raws) =
    let q : CanonicalQuestion = normalize_question raw in
    let name : String = question_name index q.ref in
    (if is_unknown_section u.lower seen q.section
      then append name
          (append ": there's no section called \"" (append (section_text q.section) "\"."))
        ∷ []
      else [])
    ++ map (λ problem. append name (append ": " problem)) (question_problems q method)
    ++ document_question_problems u seen method (suc index) raws

module _ (fl : Float) where
  open fl use {F}

  abbrev pub same_number : F → F → Bool
  same_number x y = not (lt fl x y) && not (lt fl y x)

  -- Whether a number occurs twice: a `Set` of them is smaller than the list.
  unfoldable pub repeats : List F → Bool
  repeats [] = false
  repeats (x ∷ xs) = let rest = repeats xs in if any (same_number x) xs then true else rest

  abbrev pub minimums : List (CanonicalBand F) → List F
  minimums bands = map (λ b. b.min_score) bands

  unfoldable pub document_problems : Unicode → CanonicalAssessment F → List String
  unfolding section_problems document_question_problems repeats
  document_problems u d =
      (section_problems u [] d.sections).0
      ++ document_question_problems u (section_problems u [] d.sections).1 d.scoring_method 0
          d.questions
      ++ (if repeats (minimums d.bands)
          then "Two score bands start at the same score." ∷ []
          else [])
