-- ===== src/Tests/Reports.antt =====
-- The theorems on CSV values and on the review of a test, at small inputs.
use tmx_assessment.Prelude.{◌≡◌, refl, true, false, [], All, count_if}
use Prim.Native.Char.{Char}
use Prim.Native.String.{◌++◌ as append, ◌∷◌ as cons, char_at}
use tmx_assessment.Csv.{read_all, doubled}
use tmx_assessment.Csv.Quoting.{read_all-doubled}
use tmx_assessment.Canonical.Rules.{is_scale}
use tmx_assessment.Canonical.Scoring.Counts.{right_count}
use tmx_assessment.Take.Results.{reviews}
use tmx_assessment.Take.Reviews.{IsChoice, marks_correct, reviews_count}
use tmx_assessment.Tests.Fixtures.{choice_test, some_answers}

abbrev quote_char : Char
quote_char = char_at "\"" 0

read_all-doubled_example :
    read_all 44 false
      (append (doubled "a\"b") (cons quote_char ",c"))
      (record { records = []; record' = []; value = ""; in_quotes = true; quoted_value = true })
    ≡ read_all 44 false ",c" (record {
      records = [];
      record' = [];
      value = append "" "a\"b";
      in_quotes = false;
      quoted_value = true;
    })
read_all-doubled_example = read_all-doubled 44 [] [] "" "a\"b" ",c" quote_char refl refl

questions-IsChoice : All IsChoice choice_test.questions
unfolding is_scale
questions-IsChoice = (
  (refl, (refl, (refl, (refl, tt)))),
  ((refl, (refl, (refl, (refl, tt)))), ((refl, (refl, (refl, (refl, tt)))), tt)),
)

reviews_count_example :
    count_if marks_correct (reviews some_answers [] 0 choice_test.questions)
    ≡ right_count some_answers choice_test.questions
reviews_count_example = reviews_count some_answers [] 0 choice_test.questions questions-IsChoice
