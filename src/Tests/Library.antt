-- ===== src/Tests/Library.antt =====
-- The fixtures of the editor: a test with two questions and a section, as the tables hold it.
use tmx_assessment.Prelude.{ℕ, String, Bool, true, false, none, [], ◌∷◌}
use tmx_assessment.Float.Fraction.{Fraction}
use tmx_assessment.Schema.{single_choice, correct_answer, draft, fixed, SectionRow, AssessmentRow}
use tmx_assessment.Canonical.Slugs.{Unicode, numbered}
use tmx_assessment.Edit.Store.{StoredOption, StoredQuestion, Library, Runtime}

abbrev pub unicode : Unicode
unicode = record { lower = λ s. s; nfkd = λ s. s; upper = λ s. s }

abbrev pub runtime : Runtime
runtime = record { row_id = numbered "id"; unicode = unicode }

abbrev stored_option : String → ℕ → String → Bool → StoredOption
stored_option id order label is_correct = record {
  id = id;
  fields = record {
    order = order;
    label = label;
    text = label;
    employer_text = none;
    value = none;
    is_correct = is_correct;
  };
}

abbrev pub stored_question : String → ℕ → StoredQuestion
stored_question id order = record {
  id = id;
  assessment_id = "a1";
  order = order;
  fields = record {
    section_id = none;
    ref = none;
    type = single_choice;
    instruction = none;
    context = none;
    stem = "Which one?";
    media_id = none;
    media_file_name = none;
    employer_prompt = none;
    default_employer_value = none;
    difficulty = none;
    rationale = none;
    transcript = none;
    shuffle_options = none;
    keep_last_option_fixed = false;
  };
  options = stored_option "o1" 0 "A" true ∷ stored_option "o2" 1 "B" false ∷ [];
}

abbrev pub draft_test : AssessmentRow Fraction
draft_test = record {
  id = "a1";
  slug = "reading";
  name = "Reading";
  tagline = none;
  description = none;
  level = none;
  relevant_for = none;
  instructions = none;
  duration_minutes = 15;
  scoring_method = correct_answer;
  status = draft;
  question_order = fixed;
  shuffle_options = true;
  allow_back_navigation = true;
  audio_replays = 1;
  sections = [];
  questions = [];
  bands = [];
}

abbrev pub first_section : SectionRow Fraction
first_section = record {
  id = numbered "id" 0;
  name = "Part one";
  description = none;
  order = 0;
  weight = none;
}

abbrev pub library : Library Fraction
library = record {
  tests = draft_test ∷ [];
  sections = record { assessment_id = "a1"; row = first_section } ∷ [];
  questions = stored_question "q1" 0 ∷ stored_question "q2" 1 ∷ [];
  bands = [];
  media = [];
  drawn = 1;
}
