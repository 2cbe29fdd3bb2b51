-- ===== src/Edit/Store.antt =====
-- The tables that hold tests, and how `AssessmentsService.content` and `detail` load a test with its
-- content. Rows are in their order of insertion. The database sorts by `order`; rows with equal orders
-- stay as they were inserted here, where the database promises nothing. The statistics that `detail` adds
-- and the shape of its answer are left out: it gives the content.
use tmx_assessment.Prelude.{
  ℕ, ◌+◌, String, Bool, ◌&&◌, ltb, leb, ◌==◌, Option, none, some, List, [], ◌∷◌, map, filter, find?,
  any, all, length, if◌then◌else◌,
}
use tmx_assessment.Prelude.Text.{◌===◌}
use tmx_assessment.Prelude.Names.{members}
use tmx_assessment.Prelude.Sort.{sort}
use tmx_assessment.Http.{not_found, Action, gets, found_or, ◌>>=◌}
use tmx_assessment.Schema.{MediaRow, OptionRow, QuestionRow, SectionRow, BandRow, AssessmentRow}
use tmx_assessment.Canonical.Mapper.{QuestionFields, OptionFields}
use tmx_assessment.Canonical.Slugs.{Unicode}

pub record StoredOption : Type 0 where
  pub id : String
  pub fields : OptionFields

pub record StoredQuestion : Type 0 where
  pub id : String
  pub assessment_id : String
  pub order : ℕ
  pub fields : QuestionFields
  pub options : List StoredOption

pub record StoredSection (F : Type 0) : Type 0 where
  pub assessment_id : String
  pub row : SectionRow F

pub record StoredBand (F : Type 0) : Type 0 where
  pub assessment_id : String
  pub order : ℕ
  pub row : BandRow F

-- The lists in the rows of `tests` are unused: `content` fills them from the other tables. `drawn` is the
-- number of row ids given out.
pub record Library (F : Type 0) : Type 0 where
  pub tests : List (AssessmentRow F)
  pub sections : List (StoredSection F)
  pub questions : List StoredQuestion
  pub bands : List (StoredBand F)
  pub media : List MediaRow
  pub drawn : ℕ

-- What comes from the platform: the ids of new rows, one after another, and the case of letters.
pub record Runtime : Type 0 where
  pub row_id : ℕ → String
  pub unicode : Unicode

abbrev pub find_media : Option String → List MediaRow → Option MediaRow
find_media none media = none
find_media (some id) media = find? (λ m. m.id === id) media

unfoldable pub load_option : StoredOption → OptionRow
load_option o = record {
  id = o.id;
  label = o.fields.label;
  text = o.fields.text;
  employer_text = o.fields.employer_text;
  value = o.fields.value;
  is_correct = o.fields.is_correct;
}

abbrev pub option_before : StoredOption → StoredOption → Bool
option_before a b = ltb a.fields.order b.fields.order

abbrev pub question_before : StoredQuestion → StoredQuestion → Bool
question_before a b = ltb a.order b.order

unfoldable pub load_question : List MediaRow → StoredQuestion → QuestionRow
unfolding load_option sort
load_question media q = record {
  id = q.id;
  section_id = q.fields.section_id;
  order = q.order;
  ref = q.fields.ref;
  type = q.fields.type;
  instruction = q.fields.instruction;
  context = q.fields.context;
  stem = q.fields.stem;
  media_id = q.fields.media_id;
  media = find_media q.fields.media_id media;
  media_file_name = q.fields.media_file_name;
  employer_prompt = q.fields.employer_prompt;
  default_employer_value = q.fields.default_employer_value;
  difficulty = q.fields.difficulty;
  rationale = q.fields.rationale;
  transcript = q.fields.transcript;
  shuffle_options = q.fields.shuffle_options;
  keep_last_option_fixed = q.fields.keep_last_option_fixed;
  options = map load_option (sort option_before q.options);
}

abbrev pub is_question_of : String → StoredQuestion → Bool
is_question_of test q = q.assessment_id === test

-- `nextOrder`: one more than every order.
unfoldable pub next_order {ℓ} : {A : Type ℓ} → (A → ℕ) → List A → ℕ
next_order order [] = 0
next_order order (x ∷ xs) =
    let rest = next_order order xs in if leb rest (order x + 1) then order x + 1 else rest

-- `assertSameIds`: the condition.
unfoldable pub is_reordering : List String → List String → Bool
unfolding members
is_reordering items ids =
    length ids == length (members items)
    && length (members ids) == length ids
    && all (λ id. any (λ item. item === id) (members items)) ids

module _ {F : Type 0} where
  abbrev pub section_before : StoredSection F → StoredSection F → Bool
  section_before a b = ltb a.row.order b.row.order

  abbrev pub stored_band_before : StoredBand F → StoredBand F → Bool
  stored_band_before a b = ltb a.order b.order

  abbrev pub is_section_of : String → StoredSection F → Bool
  is_section_of test s = s.assessment_id === test

  abbrev pub is_band_of : String → StoredBand F → Bool
  is_band_of test b = b.assessment_id === test

  unfoldable pub with_content : Library F → AssessmentRow F → AssessmentRow F
  unfolding load_question sort
  with_content db a = record a {
    sections = map (λ s. s.row) (sort section_before (filter (is_section_of a.id) db.sections));
    questions =
        map (load_question db.media)
          (sort question_before (filter (is_question_of a.id) db.questions));
    bands = map (λ b. b.row) (sort stored_band_before (filter (is_band_of a.id) db.bands));
  }

  abbrev pub find_test : String → Library F → Option (AssessmentRow F)
  find_test id db = find? (λ a. a.id === id) db.tests

  unfoldable pub content : String → Action (Library F) (AssessmentRow F)
  unfolding with_content
  content id = do
    found ← gets (find_test id)
    test ← found_or (not_found "That test doesn’t exist.") found
    gets (λ db. with_content db test)
