-- ===== src/Edit/Sections.antt =====
-- questions.service.ts: a test's sections. A section is written with its name, and its questions stay in
-- the test without a section when it is deleted.
use Prim.Native.String.{◌++◌ as append}
pub mod Names
pub mod Kept
use tmx_assessment.Prelude.{
  ℕ, suc, String, Bool, true, false, ◌&&◌, ◌||◌, not, leb, Option, none, some, List, [], ◌∷◌, ◌++◌,
  map, filter, find?, any, length, if◌then◌else◌,
}
use tmx_assessment.Prelude.Text.{◌===◌}
use tmx_assessment.Http.{
  bad_request, not_found, conflict, ok, Action, found_or, modify, throw_if, done, ◌>>=◌, ◌>>◌,
}
use tmx_assessment.Schema.{SectionRow, AssessmentRow}
use tmx_assessment.Canonical.Slugs.{Unicode}
use tmx_assessment.Take.Store.{update_many}
use tmx_assessment.Edit.Store.{
  StoredSection, StoredQuestion, Library, Runtime, content, next_order, is_reordering,
}

abbrev pub max_sections : ℕ
max_sections = 20

-- CreateSectionDto
pub record SectionInput (F : Type 0) : Type 0 where
  pub name : String
  pub description : Option String
  pub weight : Option F

-- UpdateSectionDto: a field that is left out is `none`.
pub record SectionPatch (F : Type 0) : Type 0 where
  pub name : Option String
  pub description : Option (Option String)
  pub weight : Option (Option F)

-- What staff can ask for the sections of a test.
pub data SectionEdit (F : Type 0) : Type 0 where
  create : SectionInput F → SectionEdit F
  update : String → SectionPatch F → SectionEdit F
  remove : String → SectionEdit F
  reorder : List String → SectionEdit F

abbrev pub or_kept {ℓ} : {A : Type ℓ} → A → Option A → A
or_kept kept none = kept
or_kept kept (some value) = value

abbrev pub is_not : Option String → String → Bool
is_not none id = true
is_not (some except) id = not (id === except)

-- `items.map((id, order) => update({ where: { id }, data: { order } }))`
unfoldable pub reorder_from {ℓ} :
    {A : Type ℓ} → (A → String) → (ℕ → A → A) → ℕ → List String → List A → List A
reorder_from id with_order k [] rows = rows
reorder_from id with_order k (i ∷ is) rows =
    reorder_from id with_order (suc k) is (update_many (λ r. id r === i) (with_order k) rows)

abbrev pub unsectioned_by : String → StoredQuestion → StoredQuestion
unsectioned_by id q = record q { fields = record (q.fields) { section_id = none } }

abbrev pub is_in_section : String → Option String → Bool
is_in_section id none = false
is_in_section id (some section_id) = section_id === id

abbrev pub name_taken : String → String
name_taken name = append "This test already has a section called \"" (append name "\".")

module _ {F : Type 0} where
  abbrev pub section_id : StoredSection F → String
  section_id s = s.row.id

  abbrev pub with_section_order : ℕ → StoredSection F → StoredSection F
  with_section_order order s = record s { row = record (s.row) { order = order } }

  unfoldable pub patched : SectionPatch F → StoredSection F → StoredSection F
  patched patch s = record s {
    row = record (s.row) {
      name = or_kept s.row.name patch.name;
      description = or_kept s.row.description patch.description;
      weight = or_kept s.row.weight patch.weight;
    };
  }

  -- `delete` of a section; the foreign key of its questions is set to null.
  unfoldable pub delete_section : String → Library F → Library F
  delete_section id db = record db {
    sections = filter (λ s. not (section_id s === id)) db.sections;
    questions =
        update_many (λ q. is_in_section id q.fields.section_id) (unsectioned_by id) db.questions;
  }

  unfoldable pub find_section : AssessmentRow F → String → Option (SectionRow F)
  find_section c id = find? (λ s. s.id === id) c.sections

  module _ (rt : Runtime) where
    abbrev pub clashes : String → Option String → SectionRow F → Bool
    clashes name except s =
        is_not except s.id && (rt.unicode.lower s.name === rt.unicode.lower name)

    unfoldable pub is_name_taken : AssessmentRow F → String → Option String → Bool
    is_name_taken c name except = any (clashes name except) c.sections

    unfoldable pub assert_name_free :
        AssessmentRow F → Option String → Option String → Action (Library F) (Unit {0})
    unfolding is_name_taken
    assert_name_free c none except = done
    assert_name_free c (some name) except =
        throw_if (is_name_taken c name except) (conflict (name_taken name))

    unfoldable pub insert_section : String → ℕ → SectionInput F → Library F → Library F
    insert_section test order input db = record db {
      sections =
          db.sections
          ++ record {
            assessment_id = test;
            row = record {
              id = rt.row_id db.drawn;
              name = input.name;
              description = input.description;
              order = order;
              weight = input.weight;
            };
          }
            ∷ [];
      drawn = suc db.drawn;
    }

    unfoldable pub create_section : String → SectionInput F → Action (Library F) (AssessmentRow F)
    unfolding content assert_name_free insert_section next_order
    create_section test input = do
      c ← content test
      throw_if (leb max_sections (length c.sections))
          (bad_request ("A test can have up to 20 sections." ∷ []))
      assert_name_free c (some input.name) none
      modify (insert_section test (next_order (λ s. s.order) c.sections) input)
      content test

    unfoldable pub update_section :
        String → String → SectionPatch F → Action (Library F) (AssessmentRow F)
    unfolding content find_section assert_name_free patched
    update_section test id patch = do
      c ← content test
      found ← found_or (not_found "That section isn’t in this test.") (find_section c id)
      assert_name_free c patch.name (some id)
      modify (λ db. record db {
        sections = update_many (λ s. section_id s === id) (patched patch) db.sections;
      })
      content test

  unfoldable pub remove_section : String → String → Action (Library F) (AssessmentRow F)
  unfolding content find_section delete_section
  remove_section test id = do
    c ← content test
    found ← found_or (not_found "That section isn’t in this test.") (find_section c id)
    modify (delete_section id)
    content test

  unfoldable pub reorder_sections : String → List String → Action (Library F) (AssessmentRow F)
  unfolding content is_reordering reorder_from
  reorder_sections test ids = do
    c ← content test
    throw_if (not (is_reordering (map (λ s. s.id) c.sections) ids))
        (bad_request ("Send every section id in this test once, in the new order." ∷ []))
    modify (λ db. record db {
      sections = reorder_from section_id with_section_order 0 ids db.sections;
    })
    content test

  unfoldable pub edit_sections :
      Runtime → String → SectionEdit F → Action (Library F) (AssessmentRow F)
  unfolding create_section update_section remove_section reorder_sections
  edit_sections rt test (create input) = create_section rt test input
  edit_sections rt test (update id patch) = update_section rt test id patch
  edit_sections rt test (remove id) = remove_section test id
  edit_sections rt test (reorder ids) = reorder_sections test ids
