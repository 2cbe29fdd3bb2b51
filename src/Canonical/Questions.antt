-- ===== src/Canonical/Questions.antt =====
-- question-rules.ts: what an author can leave out of a question, and what is wrong with one. A missing
-- field and a null are both `none`; the validators of canonical.dto.ts admit whole numbers only for scale
-- values, so `Number.isInteger` holds of each value that is there.
pub mod Normal
pub mod Problems
use Prim.Native.String.{◌++◌ as append, char_at, [] as empty, ◌∷◌ as cons}
use tmx_assessment.Prelude.{
  ℕ, zero, suc, ◌+◌, ◌/◌, ◌%◌, String, Bool, true, false, ◌&&◌, ◌||◌, not, ltb, ◌==◌, Option, none,
  some, List, [], ◌∷◌, ◌++◌, map, any, count_if, length, get_elem?, if◌then◌else◌,
}
use mathlib.Core.Option
use tmx_assessment.Prelude.Int.{ℤ, pos, negsuc, eqb_ℤ, ltb_ℤ}
use tmx_assessment.Prelude.Text.{filled, trim}
use tmx_assessment.Schema.{
  ScoringMethod, correct_answer, alignment, QuestionType, single_choice, true_false, rating_scale,
  choice_scale, Difficulty,
}
use tmx_assessment.Canonical.Rules.{is_scale}

pub record CanonicalOption : Type 0 where
  pub label : Option String
  pub text : String
  pub employer_text : Option String
  pub value : Option ℤ
  pub correct : Bool

pub record CanonicalMedia : Type 0 where
  pub file : Option String
  pub asset_id : Option String

pub record CanonicalQuestion : Type 0 where
  pub ref : Option String
  pub section : Option String
  pub type : QuestionType
  pub difficulty : Option Difficulty
  pub instruction : Option String
  pub context : Option String
  pub stem : String
  pub media : Option CanonicalMedia
  pub options : List CanonicalOption
  pub rationale : Option String
  pub transcript : Option String
  pub shuffle_options : Option Bool
  pub keep_last_option_fixed : Bool
  pub employer_prompt : Option String
  pub employer_value : Option ℤ

abbrev pub option_letters : List String
option_letters = "A" ∷ "B" ∷ "C" ∷ "D" ∷ "E" ∷ "F" ∷ []

abbrev pub max_choice_options : ℕ
max_choice_options = 6

abbrev pub min_scale_points : ℕ
min_scale_points = 2

abbrev pub max_scale_points : ℕ
max_scale_points = 7

-- `String(n)` of a whole number; a number of n is below 10 ^ n, so the fuel is enough.
abbrev pub digit : ℕ → String
digit n = cons (char_at "0123456789" (n % 10)) empty

abbrev pub digits : ℕ → ℕ → String
digits zero n = empty
digits (suc fuel) n =
    let rest = digits fuel (n / 10) in if ltb n 10 then digit n else append rest (digit n)

unfoldable pub nat_text : ℕ → String
nat_text n = digits (suc n) n

unfoldable pub int_text : ℤ → String
unfolding nat_text
int_text (pos n) = nat_text n
int_text (negsuc n) = append "-" (nat_text (suc n))

-- Trimmed text, or none when there is nothing left.
unfoldable pub text_or_none : String → Option String
text_or_none trimmed = if filled trimmed then some trimmed else none

unfoldable pub blank_to_null : Option String → Option String
unfolding trim text_or_none
blank_to_null none = none
blank_to_null (some value) = text_or_none (trim value)

abbrev pub or_value : ℕ → Option ℤ → ℤ
or_value index none = pos (suc index)
or_value index (some value) = value

abbrev pub letter_or : ℕ → Option String → String
letter_or index none = nat_text (suc index)
letter_or index (some letter) = letter

unfoldable pub scale_option : ℕ → CanonicalOption → CanonicalOption
unfolding int_text blank_to_null trim
scale_option index o = record {
  label = some (int_text (or_value index o.value));
  text = trim o.text;
  employer_text = blank_to_null o.employer_text;
  value = some (or_value index o.value);
  correct = false;
}

unfoldable pub choice_option : ℕ → CanonicalOption → CanonicalOption
unfolding trim nat_text
choice_option index o = record {
  label = some (letter_or index (get_elem? option_letters index));
  text = trim o.text;
  employer_text = none;
  value = none;
  correct = o.correct;
}

unfoldable pub normalize_option : Bool → ℕ → CanonicalOption → CanonicalOption
unfolding scale_option choice_option
normalize_option scale index o = if scale then scale_option index o else choice_option index o

-- `map` with the index
unfoldable pub normalize_options : Bool → ℕ → List CanonicalOption → List CanonicalOption
unfolding normalize_option
normalize_options scale index [] = []
normalize_options scale index (o ∷ os) =
    normalize_option scale index o ∷ normalize_options scale (suc index) os

abbrev pub blank_option : String → CanonicalOption
blank_option text = record {
  label = none;
  text = text;
  employer_text = none;
  value = none;
  correct = false;
}

abbrev pub true_false_options : List CanonicalOption
true_false_options = blank_option "True" ∷ blank_option "False" ∷ []

-- The options to start from: True and False, where the author left them out.
unfoldable pub source_options : QuestionType → List CanonicalOption → List CanonicalOption
source_options true_false [] = true_false_options
source_options type options = options

abbrev pub media_of : Option String → Option String → Option CanonicalMedia
media_of none none = none
media_of file asset_id = some (record { file = file; asset_id = asset_id })

unfoldable pub normalize_media : Option CanonicalMedia → Option CanonicalMedia
unfolding blank_to_null
normalize_media none = none
normalize_media (some media) = media_of (blank_to_null media.file) (blank_to_null media.asset_id)

unfoldable pub normalize_question : CanonicalQuestion → CanonicalQuestion
unfolding is_scale source_options normalize_options normalize_media blank_to_null trim
normalize_question q = record {
  ref = blank_to_null q.ref;
  section = blank_to_null q.section;
  type = q.type;
  difficulty = q.difficulty;
  instruction = blank_to_null q.instruction;
  context = blank_to_null q.context;
  stem = trim q.stem;
  media = normalize_media q.media;
  options = normalize_options (is_scale q.type) 0 (source_options q.type q.options);
  rationale = blank_to_null q.rationale;
  transcript = blank_to_null q.transcript;
  shuffle_options = q.shuffle_options;
  keep_last_option_fixed = q.keep_last_option_fixed;
  employer_prompt = if is_scale q.type then blank_to_null q.employer_prompt else none;
  employer_value = if is_scale q.type then q.employer_value else none;
}
