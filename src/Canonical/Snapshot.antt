-- ===== src/Canonical/Snapshot.antt =====
-- snapshot.ts: a test frozen at the moment it was sent. `buildSnapshot` reads the assessment with its
-- content; a stored snapshot is the value itself, so `readSnapshot` gives back what was written.
use tmx_assessment.Prelude.{ℕ, String, Bool, Option, List, map}
use mathlib.Core.Option
use tmx_assessment.Prelude.Int.{ℤ}
use tmx_assessment.Prelude.Sort.{sort}
use tmx_assessment.Schema.{
  ScoringMethod, QuestionType, QuestionOrder, Difficulty, SectionRow, OptionRow, MediaRow,
  QuestionRow, BandRow, AssessmentRow,
}
use tmx_assessment.Float.{Float, lt}
use tmx_assessment.Canonical.Rules.{shuffles_options}

pub record SnapshotSection (F : Type 0) : Type 0 where
  pub id : String
  pub name : String
  pub weight : Option F

pub record SnapshotOption : Type 0 where
  pub id : String
  pub label : String
  pub text : String
  pub employer_text : Option String
  pub value : Option ℤ
  pub is_correct : Bool

pub record SnapshotMedia : Type 0 where
  pub id : String
  pub mime_type : String

pub record SnapshotQuestion : Type 0 where
  pub id : String
  pub ref : Option String
  pub section_id : Option String
  pub type : QuestionType
  pub instruction : Option String
  pub context : Option String
  pub stem : String
  pub media : Option SnapshotMedia
  pub employer_prompt : Option String
  pub employer_value : Option ℤ
  pub difficulty : Option Difficulty
  pub rationale : Option String
  pub transcript : Option String
  pub shuffle_options : Bool
  pub keep_last_option_fixed : Bool
  pub options : List SnapshotOption

pub record SnapshotBand (F : Type 0) : Type 0 where
  pub min_score : F
  pub label : String
  pub interpretation : Option String
  pub recommended_action : Option String

pub record AssessmentSnapshot (F : Type 0) : Type 0 where
  pub version : ℕ
  pub assessment_id : String
  pub slug : String
  pub name : String
  pub tagline : Option String
  pub instructions : Option String
  pub duration_minutes : ℕ
  pub scoring_method : ScoringMethod
  pub question_order : QuestionOrder
  pub allow_back_navigation : Bool
  pub audio_replays : ℕ
  pub sections : List (SnapshotSection F)
  pub questions : List SnapshotQuestion
  pub bands : List (SnapshotBand F)

unfoldable pub freeze_section : {F : Type 0} → SectionRow F → SnapshotSection F
freeze_section s = record { id = s.id; name = s.name; weight = s.weight }

unfoldable pub freeze_option : OptionRow → SnapshotOption
freeze_option o = record {
  id = o.id;
  label = o.label;
  text = o.text;
  employer_text = o.employer_text;
  value = o.value;
  is_correct = o.is_correct;
}

freeze_media : MediaRow → SnapshotMedia
freeze_media m = record { id = m.id; mime_type = m.mime_type }

unfoldable pub freeze_question : Bool → QuestionRow → SnapshotQuestion
unfolding freeze_option freeze_media shuffles_options
freeze_question test_setting q = record {
  id = q.id;
  ref = q.ref;
  section_id = q.section_id;
  type = q.type;
  instruction = q.instruction;
  context = q.context;
  stem = q.stem;
  media = Option.map freeze_media q.media;
  employer_prompt = q.employer_prompt;
  employer_value = q.default_employer_value;
  difficulty = q.difficulty;
  rationale = q.rationale;
  transcript = q.transcript;
  shuffle_options = shuffles_options q.type q.shuffle_options test_setting;
  keep_last_option_fixed = q.keep_last_option_fixed;
  options = map freeze_option q.options;
}

unfoldable pub freeze_band : {F : Type 0} → BandRow F → SnapshotBand F
freeze_band b = record {
  min_score = b.min_score;
  label = b.label;
  interpretation = b.interpretation;
  recommended_action = b.recommended_action;
}

module _ (fl : Float) where
  open fl use {F}

  -- Highest minimum first.
  abbrev pub row_before : BandRow F → BandRow F → Bool
  row_before a b = lt fl b.min_score a.min_score

  unfoldable pub build_snapshot : AssessmentRow F → AssessmentSnapshot F
  unfolding freeze_section freeze_question freeze_band sort
  build_snapshot a = record {
    version = 1;
    assessment_id = a.id;
    slug = a.slug;
    name = a.name;
    tagline = a.tagline;
    instructions = a.instructions;
    duration_minutes = a.duration_minutes;
    scoring_method = a.scoring_method;
    question_order = a.question_order;
    allow_back_navigation = a.allow_back_navigation;
    audio_replays = a.audio_replays;
    sections = map freeze_section a.sections;
    questions = map (freeze_question a.shuffle_options) a.questions;
    bands = map freeze_band (sort row_before a.bands);
  }
