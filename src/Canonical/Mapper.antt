-- ===== src/Canonical/Mapper.antt =====
-- canonical/canonical.mapper.ts and canonical/question-data.ts: a stored question in the canonical form
-- and back, the keys of sections, and what stops a test from being published.
pub mod Keys
use Prim.Native.String.{◌++◌ as append}
use tmx_assessment.Prelude.{
  ℕ, suc, ◌+◌, String, Bool, true, false, ◌&&◌, not, ◌==◌, Option, none, some, List, [], ◌∷◌, ◌++◌,
  map, length, if◌then◌else◌,
}
use tmx_assessment.Prelude.Text.{filled}
use tmx_assessment.Prelude.Int.{ℤ}
use tmx_assessment.Prelude.Sort.{sort}
use tmx_assessment.Prelude.Dict.{Dict, get, set}
use tmx_assessment.Float.{Float}
use tmx_assessment.Schema.{
  QuestionType, Difficulty, ScoringMethod, QuestionOrder, OptionRow, MediaRow, QuestionRow,
  SectionRow, BandRow, AssessmentRow,
}
use tmx_assessment.Canonical.Questions.{
  CanonicalOption, CanonicalMedia, CanonicalQuestion, normalize_question, nat_text,
}
use tmx_assessment.Canonical.Questions.Problems.{question_problems}
use tmx_assessment.Canonical.Snapshot.{row_before}
use tmx_assessment.Canonical.Slugs.{Unicode, slugify, first_free}

pub record CanonicalSection (F : Type 0) : Type 0 where
  pub key : String
  pub name : String
  pub description : Option String
  pub weight : Option F

pub record CanonicalBand (F : Type 0) : Type 0 where
  pub min_score : F
  pub label : String
  pub interpretation : Option String
  pub recommended_action : Option String

pub record CanonicalAssessment (F : Type 0) : Type 0 where
  pub slug : String
  pub name : String
  pub tagline : Option String
  pub description : Option String
  pub level : Option String
  pub relevant_for : Option String
  pub instructions : Option String
  pub duration_minutes : ℕ
  pub scoring_method : ScoringMethod
  pub question_order : QuestionOrder
  pub shuffle_options : Bool
  pub allow_back_navigation : Bool
  pub audio_replays : ℕ
  pub sections : List (CanonicalSection F)
  pub bands : List (CanonicalBand F)
  pub questions : List CanonicalQuestion

pub record QuestionLinks : Type 0 where
  pub section_id : Option String
  pub media_id : Option String
  pub media_file_name : Option String

-- The columns of a question that `questionFields` gives.
pub record QuestionFields : Type 0 where
  pub section_id : Option String
  pub ref : Option String
  pub type : QuestionType
  pub instruction : Option String
  pub context : Option String
  pub stem : String
  pub media_id : Option String
  pub media_file_name : Option String
  pub employer_prompt : Option String
  pub default_employer_value : Option ℤ
  pub difficulty : Option Difficulty
  pub rationale : Option String
  pub transcript : Option String
  pub shuffle_options : Option Bool
  pub keep_last_option_fixed : Bool

-- The columns of an option that `optionFields` gives.
pub record OptionFields : Type 0 where
  pub order : ℕ
  pub label : String
  pub text : String
  pub employer_text : Option String
  pub value : Option ℤ
  pub is_correct : Bool

-- A string or a null as a condition: null and the empty string are false.
abbrev pub truthy : Option String → Bool
truthy none = false
truthy (some s) = filled s

unfoldable pub question_fields : CanonicalQuestion → QuestionLinks → QuestionFields
question_fields q links = record {
  section_id = links.section_id;
  ref = q.ref;
  type = q.type;
  instruction = q.instruction;
  context = q.context;
  stem = q.stem;
  media_id = links.media_id;
  media_file_name = if truthy links.media_id then none else links.media_file_name;
  employer_prompt = q.employer_prompt;
  default_employer_value = q.employer_value;
  difficulty = q.difficulty;
  rationale = q.rationale;
  transcript = q.transcript;
  shuffle_options = q.shuffle_options;
  keep_last_option_fixed = q.keep_last_option_fixed;
}

abbrev pub label_or : ℕ → Option String → String
label_or order none = nat_text (order + 1)
label_or order (some label) = label

unfoldable pub option_fields : ℕ → CanonicalOption → OptionFields
unfolding nat_text
option_fields order o = record {
  order = order;
  label = label_or order o.label;
  text = o.text;
  employer_text = o.employer_text;
  value = o.value;
  is_correct = o.correct;
}

unfoldable pub to_canonical_option : OptionRow → CanonicalOption
to_canonical_option o = record {
  label = some o.label;
  text = o.text;
  employer_text = o.employer_text;
  value = o.value;
  correct = o.is_correct;
}

-- The uploaded file, or the name of one that is still to come.
unfoldable pub canonical_media : Option MediaRow → Option String → Option CanonicalMedia
canonical_media (some media) name =
    some (record { file = some media.original_name; asset_id = some media.id })
canonical_media none name =
    if truthy name then some (record { file = name; asset_id = none }) else none

unfoldable pub to_canonical_question : QuestionRow → Option String → CanonicalQuestion
unfolding to_canonical_option canonical_media
to_canonical_question q section = record {
  ref = q.ref;
  section = section;
  type = q.type;
  difficulty = q.difficulty;
  instruction = q.instruction;
  context = q.context;
  stem = q.stem;
  media = canonical_media q.media q.media_file_name;
  options = map to_canonical_option q.options;
  rationale = q.rationale;
  transcript = q.transcript;
  shuffle_options = q.shuffle_options;
  keep_last_option_fixed = q.keep_last_option_fixed;
  employer_prompt = q.employer_prompt;
  employer_value = q.default_employer_value;
}

-- document-rules.ts: "Question 3 (Q5)"
abbrev pub in_brackets : Option String → String
in_brackets none = ""
in_brackets (some ref) = if filled ref then append " (" (append ref ")") else ""

unfoldable pub question_name : ℕ → Option String → String
unfolding nat_text
question_name index ref = append "Question " (append (nat_text (index + 1)) (in_brackets ref))

abbrev pub name_of_file : Option String → String
name_of_file none = "null"
name_of_file (some file) = file

-- `!question.mediaId && question.mediaFileName`
abbrev pub lacks_audio : QuestionRow → Bool
lacks_audio q = not (truthy q.media_id) && truthy q.media_file_name

unfoldable pub audio_problems : String → QuestionRow → List String
audio_problems name q =
    if lacks_audio q
    then append name
        (append ": upload the audio file \"" (append (name_of_file q.media_file_name) "\"."))
      ∷ []
    else []

unfoldable pub stored_problems : QuestionRow → ScoringMethod → List String
unfolding normalize_question to_canonical_question question_problems
stored_problems q method =
    question_problems (normalize_question (to_canonical_question q none)) method

unfoldable pub publish_problems_from : ScoringMethod → ℕ → List QuestionRow → List String
unfolding question_name stored_problems audio_problems
publish_problems_from method index [] = []
publish_problems_from method index (q ∷ qs) =
    map (λ problem. append (question_name index q.ref) (append ": " problem))
      (stored_problems q method)
    ++ audio_problems (question_name index q.ref) q
    ++ publish_problems_from method (suc index) qs

abbrev pub none_yet : List QuestionRow → List String
none_yet [] = "Add at least one question." ∷ []
none_yet (q ∷ qs) = []

unfoldable pub publish_problems : {F : Type 0} → AssessmentRow F → List String
unfolding publish_problems_from
publish_problems a = none_yet a.questions ++ publish_problems_from a.scoring_method 0 a.questions

abbrev pub key_or : String → Option String → String
key_or fallback none = fallback
key_or fallback (some key) = key

module _ (u : Unicode) {F : Type 0} where
  -- The loop: the keys that are used, and the key of each section.
  unfoldable pub section_keys_from : List String → Dict String → List (SectionRow F) → Dict String
  unfolding slugify first_free set
  section_keys_from used keys [] = keys
  section_keys_from used keys (s ∷ ss) =
      let key : String = first_free used (slugify u s.name "section") in
      section_keys_from (key ∷ used) (set s.id key keys) ss

  unfoldable pub section_keys : List (SectionRow F) → Dict String
  unfolding section_keys_from
  section_keys sections = section_keys_from [] [] sections

  unfoldable pub to_canonical_section : Dict String → SectionRow F → CanonicalSection F
  unfolding slugify get
  to_canonical_section keys s = record {
    key = key_or (slugify u s.name "section") (get s.id keys);
    name = s.name;
    description = s.description;
    weight = s.weight;
  }

-- `question.sectionId ? (keys.get(question.sectionId) ?? null) : null`
unfoldable pub section_key_of : Dict String → Option String → Option String
unfolding get
section_key_of keys none = none
section_key_of keys (some id) = if filled id then get id keys else none

unfoldable pub to_canonical_band : {F : Type 0} → BandRow F → CanonicalBand F
to_canonical_band b = record {
  min_score = b.min_score;
  label = b.label;
  interpretation = b.interpretation;
  recommended_action = b.recommended_action;
}

module _ (fl : Float) (u : Unicode) where
  open fl use {F}

  unfoldable pub to_canonical_assessment : AssessmentRow F → CanonicalAssessment F
  unfolding section_keys to_canonical_section to_canonical_band to_canonical_question sort
      section_key_of
  to_canonical_assessment a =
      let keys : Dict String = section_keys u a.sections in
      record {
        slug = a.slug;
        name = a.name;
        tagline = a.tagline;
        description = a.description;
        level = a.level;
        relevant_for = a.relevant_for;
        instructions = a.instructions;
        duration_minutes = a.duration_minutes;
        scoring_method = a.scoring_method;
        question_order = a.question_order;
        shuffle_options = a.shuffle_options;
        allow_back_navigation = a.allow_back_navigation;
        audio_replays = a.audio_replays;
        sections = map (to_canonical_section u keys) a.sections;
        bands = map to_canonical_band (sort (row_before fl) a.bands);
        questions =
            map (λ q. to_canonical_question q (section_key_of keys q.section_id)) a.questions;
      }
