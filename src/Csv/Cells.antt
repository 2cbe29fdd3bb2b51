-- ===== src/Csv/Cells.antt =====
-- canonical/csv-questions.ts: the values of cells. A blank cell is a null there, and a value that is not
-- valid is undefined.
use Prim.Native.Char.{Char, code}
use Prim.Native.String.{◌++◌ as append, [] as empty, ◌∷◌ as cons}
use tmx_assessment.Prelude.{
  ℕ, zero, suc, ◌+◌, ◌-◌, ◌*◌, String, Bool, true, false, ◌&&◌, not, leb, ltb, ◌==◌, Option, none,
  some, List, [], ◌∷◌, any, length, if◌then◌else◌,
}
use tmx_assessment.Prelude.Int.{ℤ, pos, negsuc}
use tmx_assessment.Prelude.Text.{◌===◌, filled, trim}
use tmx_assessment.Schema.{
  ScoringMethod, correct_answer, alignment, QuestionType, single_choice, true_false, rating_scale,
  choice_scale, Difficulty, easy, medium, hard,
}
use tmx_assessment.Canonical.Questions.{CanonicalOption}
use tmx_assessment.Canonical.Slugs.{Unicode}
use tmx_assessment.Edit.Settings.{starts_with}

pub data Cell (A : Type 0) : Type 0 where
  blank : Cell A
  invalid : Cell A
  given : A → Cell A

-- The code of a letter without regard to case, as a regular expression's flag i compares ASCII.
abbrev pub folded : Char → ℕ
folded c = if leb 65 (code c) && leb (code c) 90 then code c + 32 else code c

unfoldable pub same_letters : String → String → Bool
same_letters empty empty = true
same_letters empty (cons d t) = false
same_letters (cons c s) empty = false
same_letters (cons c s) (cons d t) = folded c == folded d && same_letters s t

abbrev pub one_of : List String → String → Bool
one_of words raw = any (λ w. same_letters w raw) words

-- `replace(/[^a-z]+/g, ' ')`; the flag says that the run has its space.
unfoldable pub words_of : Bool → String → String
words_of in_run empty = empty
words_of in_run (cons c s) =
    let within = words_of true s in
    let outside = words_of false s in
    if leb 97 (code c) && leb (code c) 122
    then cons c outside
    else if in_run
    then within
    else append " " within

abbrev pub is_word : List String → String → Bool
is_word words key = any (λ w. w === key) words

abbrev pub type_of_words : String → Option QuestionType
unfolding starts_with
type_of_words key =
    if is_word ("single choice" ∷ "multiple choice" ∷ "mcq" ∷ []) key
    then some single_choice
    else if is_word ("true false" ∷ "true or false" ∷ "tf" ∷ []) key
    then some true_false
    else if starts_with "rating" key
    then some rating_scale
    else if starts_with "choice" key
    then some choice_scale
    else none

abbrev pub default_type : ScoringMethod → QuestionType
default_type alignment = rating_scale
default_type correct_answer = single_choice

unfoldable pub parse_type : Unicode → String → ScoringMethod → Option QuestionType
unfolding words_of type_of_words trim
parse_type u raw method =
    if filled raw
    then type_of_words (trim (words_of false (u.lower raw)))
    else some (default_type method)

unfoldable pub parse_difficulty : Unicode → String → Cell Difficulty
parse_difficulty u raw =
    let key : String = u.upper raw in
    if not (filled raw)
    then blank
    else if key === "EASY"
    then given easy
    else if key === "MEDIUM"
    then given medium
    else if key === "HARD"
    then given hard
    else invalid

unfoldable pub parse_boolean : String → Cell Bool
unfolding same_letters
parse_boolean raw =
    if not (filled raw)
    then blank
    else if one_of ("y" ∷ "yes" ∷ "true" ∷ "1" ∷ []) raw
    then given true
    else if one_of ("n" ∷ "no" ∷ "false" ∷ "0" ∷ []) raw
    then given false
    else invalid

abbrev pub is_digit : Char → Bool
is_digit c = leb 48 (code c) && leb (code c) 57

-- The number that digits denote, after those read so far; exact, where `Number` rounds from 2 ^ 53 on.
unfoldable pub read_digits : ℕ → String → Option ℕ
read_digits n empty = some n
read_digits n (cons c s) =
    let rest = read_digits (n * 10 + (code c - 48)) s in if is_digit c then rest else none

abbrev pub number_of : Option ℕ → Cell ℤ
number_of none = invalid
number_of (some n) = given (pos n)

abbrev pub negative : ℕ → ℤ
negative zero = pos zero
negative (suc n) = negsuc n

abbrev pub negative_of : Option ℕ → Cell ℤ
negative_of none = invalid
negative_of (some n) = given (negative n)

-- `-?\d+`
unfoldable pub parse_integer : String → Cell ℤ
unfolding read_digits
parse_integer empty = blank
parse_integer (cons c s) =
    if code c == 45
    then (if filled s then negative_of (read_digits 0 s) else invalid)
    else number_of (read_digits 0 (cons c s))

unfoldable pub find_index : {A : Type 0} → (A → Bool) → List A → Option ℕ
find_index p [] = none
find_index p (x ∷ xs) =
    let rest = find_index p xs in
    if p x then some 0 else elim rest [ none ↦ none | some i ↦ some (suc i) ]

-- A letter from A to F, as its place
unfoldable pub letter_place : String → Option ℕ
letter_place empty = none
letter_place (cons c empty) =
    if leb 97 (folded c) && leb (folded c) 102 then some (folded c - 97) else none
letter_place (cons c (cons d s)) = none

abbrev pub within : ℕ → ℕ → Option ℕ
within size index = if ltb index size then some index else none

abbrev pub by_letter_or_text : Unicode → String → List CanonicalOption → Option ℕ
unfolding letter_place find_index
by_letter_or_text u raw options = elim (letter_place raw) [
  | some index ↦ within (length options) index
  | none ↦ find_index (λ o. u.lower o.text === u.lower raw) options
]

-- The place of the correct option: a letter, True or False, or the text of an option.
unfoldable pub correct_index : Unicode → String → List CanonicalOption → QuestionType → Option ℕ
unfolding same_letters by_letter_or_text
correct_index u raw options true_false =
    if one_of ("t" ∷ "true" ∷ []) raw
    then some 0
    else if one_of ("f" ∷ "false" ∷ []) raw
    then some 1
    else by_letter_or_text u raw options
correct_index u raw options type = by_letter_or_text u raw options

-- `ratingScaleOptions`
pub record ScaleLabels : Type 0 where
  pub min : String
  pub max : String
  pub employer_min : String
  pub employer_max : String

abbrev pub or_null : String → Option String
or_null s = if filled s then some s else none

abbrev pub at_end : Bool → Bool → String → String → String
at_end first last low high = if first then low else if last then high else ""

unfoldable pub scale_points : ScaleLabels → ℕ → ℕ → ℕ → List CanonicalOption
scale_points labels size index zero = []
scale_points labels size index (suc count) =
    record {
      label = none;
      text = at_end (index == 0) (index + 1 == size) labels.min labels.max;
      employer_text =
          or_null (at_end (index == 0) (index + 1 == size) labels.employer_min labels.employer_max);
      value = some (pos (suc index));
      correct = false;
    }
    ∷ scale_points labels size (suc index) count

unfoldable pub rating_scale_options : ℕ → ScaleLabels → List CanonicalOption
unfolding scale_points
rating_scale_options size labels = scale_points labels size 0 size
