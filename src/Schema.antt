-- ===== src/Schema.antt =====
-- The enumerations and rows of the database (backend/prisma/schema.prisma) that the services read,
-- with the columns that the program uses. Times are milliseconds; `F` is the type of a Float column.
use tmx_assessment.Prelude.{ℕ, String, Bool, true, false, Option, List}
use tmx_assessment.Prelude.Int.{ℤ}

pub data ScoringMethod : Type 0 where
  correct_answer alignment : ScoringMethod

pub data QuestionType : Type 0 where
  single_choice true_false rating_scale choice_scale : QuestionType

pub data QuestionOrder : Type 0 where
  fixed shuffle_within_section shuffle_all : QuestionOrder

pub data Difficulty : Type 0 where
  easy medium hard : Difficulty

pub data AssessmentStatus : Type 0 where
  draft published archived : AssessmentStatus

pub data AttemptStatus : Type 0 where
  not_started in_progress submitted expired : AttemptStatus

-- Comparisons of enumeration values.
abbrev pub is_in_progress : AttemptStatus → Bool
is_in_progress in_progress = true
is_in_progress _ = false

abbrev pub is_not_started : AttemptStatus → Bool
is_not_started not_started = true
is_not_started _ = false

abbrev pub is_alignment : ScoringMethod → Bool
is_alignment alignment = true
is_alignment _ = false

pub record SectionRow (F : Type 0) : Type 0 where
  pub id : String
  pub name : String
  pub description : Option String
  pub order : ℕ
  pub weight : Option F

pub record OptionRow : Type 0 where
  pub id : String
  pub label : String
  pub text : String
  pub employer_text : Option String
  pub value : Option ℤ
  pub is_correct : Bool

pub record MediaRow : Type 0 where
  pub id : String
  pub mime_type : String
  pub original_name : String

pub record QuestionRow : Type 0 where
  pub id : String
  pub section_id : Option String
  pub order : ℕ
  pub ref : Option String
  pub type : QuestionType
  pub instruction : Option String
  pub context : Option String
  pub stem : String
  pub media_id : Option String
  pub media : Option MediaRow
  pub media_file_name : Option String
  pub employer_prompt : Option String
  pub default_employer_value : Option ℤ
  pub difficulty : Option Difficulty
  pub rationale : Option String
  pub transcript : Option String
  pub shuffle_options : Option Bool
  pub keep_last_option_fixed : Bool
  pub options : List OptionRow

pub record BandRow (F : Type 0) : Type 0 where
  pub min_score : F
  pub label : String
  pub interpretation : Option String
  pub recommended_action : Option String

-- An assessment with its content, as `assessmentContentInclude` loads it: sections, questions,
-- options and bands in their stored order.
pub record AssessmentRow (F : Type 0) : Type 0 where
  pub id : String
  pub slug : String
  pub name : String
  pub tagline : Option String
  pub description : Option String
  pub level : Option String
  pub relevant_for : Option String
  pub instructions : Option String
  pub duration_minutes : ℕ
  pub scoring_method : ScoringMethod
  pub status : AssessmentStatus
  pub question_order : QuestionOrder
  pub shuffle_options : Bool
  pub allow_back_navigation : Bool
  pub audio_replays : ℕ
  pub sections : List (SectionRow F)
  pub questions : List QuestionRow
  pub bands : List (BandRow F)
