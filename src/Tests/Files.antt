-- ===== src/Tests/Files.antt =====
-- A file of questions: what is written is read back, and what is wrong in a file is said with its row.
use tmx_assessment.Prelude.{◌≡◌, none, some, refl, String, All, List, [], ◌∷◌, map}
use tmx_assessment.Schema.{SectionRow, correct_answer}
use tmx_assessment.Csv.Rows.{read_table, parse_question_csv}
use tmx_assessment.Csv.Writing.{question_row}
use tmx_assessment.Csv.Header.{csv_columns}
use tmx_assessment.Canonical.Questions.{CanonicalQuestion}
use tmx_assessment.Csv.Ready.{IsReady, IsExplained, parse_question_csv-IsReady}
use tmx_assessment.Float.Fraction.{Fraction}
use tmx_assessment.Edit.Previews.{section_for, section_ids}
use tmx_assessment.Tests.Library.{unicode}

parse_question_csv-IsReady_example :
    All
      (IsReady correct_answer)
      (parse_question_csv unicode "stem,correct\r\nOne?,b\r\n" correct_answer).rows
    × IsExplained (parse_question_csv unicode "stem,correct\r\nOne?,b\r\n" correct_answer)
parse_question_csv-IsReady_example =
    parse_question_csv-IsReady unicode "stem,correct\r\nOne?,b\r\n" correct_answer

abbrev header : List String
header = "stem" ∷ "option_a" ∷ "option_b" ∷ "correct" ∷ []

abbrev table : List (List String)
table = ("One?" ∷ "a" ∷ "b" ∷ "B" ∷ []) ∷ ("Two?" ∷ "a" ∷ "b" ∷ []) ∷ []

-- The first row is read and the second, without a key, is refused.
rows_of_file : map (λ r. r.row) (read_table unicode correct_answer header table).rows ≡ 2 ∷ []
unfolding read_table
rows_of_file = refl

issues_of_file :
    map (λ i. i.column) (read_table unicode correct_answer header table).errors
    ≡ some "correct" ∷ []
unfolding read_table
issues_of_file = refl

abbrev questions : List CanonicalQuestion
questions = map (λ r. r.question) (read_table unicode correct_answer header table).rows

-- The row that is written for a question is read back as that question.
read_back :
    map
      (λ r. r.question)
      (read_table unicode correct_answer csv_columns (map question_row questions)).rows
    ≡ questions
unfolding read_table question_row
read_back = refl

abbrev section_called : String → String → SectionRow Fraction
section_called id name = record {
  id = id;
  name = name;
  description = none;
  order = 0;
  weight = none;
}

-- A name without Latin letters has the key "item", so a new name of this kind stands for an old one.
section_mistaken :
    section_for unicode (section_ids unicode [] (section_called "s1" "営業" ∷ [])) "技術" ≡ some "s1"
unfolding section_for section_ids
section_mistaken = refl
