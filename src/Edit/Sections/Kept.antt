-- ===== src/Edit/Sections/Kept.antt =====
-- The requests of questions.service.ts on sections keep the sections of every test tidy.
use tmx_assessment.Prelude.{
  ℕ, ◌≤◌, ◌≡◌, refl, arith, String, false, ◌&&◌, not, leb, Option, none, some, List, length,
  count_if, inl, inr, ◌⊎◌, Bool-cases, Option-cases, if◌then◌else◌,
}
use tmx_assessment.Prelude.Text.{◌===◌, eq_iff}
use tmx_assessment.Prelude.Counting.{find?_passes, find?_count}
use tmx_assessment.Http.{HttpError, conflict, ok, err}
use tmx_assessment.Schema.{SectionRow, AssessmentRow}
use tmx_assessment.Take.Store.{update_many}
use tmx_assessment.Edit.Store.{
  Library, Runtime, content, find_test, with_content, is_section_of, next_order,
}
use tmx_assessment.Edit.Sections.{
  max_sections, SectionInput, SectionPatch, reorder_from, section_id, with_section_order, patched,
  delete_section, find_section, is_name_taken, assert_name_free, insert_section, create_section,
  update_section, remove_section, reorder_sections, edit_sections, SectionEdit, name_taken, create,
  update, remove, reorder,
}
use tmx_assessment.Edit.Sections.Names.{
  IsTidy, insert_section-IsTidy, rewrite-IsTidy, filter-IsTidy, reorder-IsTidy, patched_named,
  IsFree, content_count, has_id,
}

module _ {F : Type 0} where
  content_state : (test : String) (db : Library F) → (content test db).1 ≡ db
  unfolding content
  content_state test db = ground arith

  create-cases :
      (rt : Runtime) (test : String) (input : SectionInput F) (db : Library F)
      → ((create_section rt test input db).1 ≡ db)
        ⊎ ((a : AssessmentRow F) × (find_test test db ≡ some a)
            × (is_name_taken rt (with_content db a) input.name none ≡ false)
            × (leb max_sections (length (with_content db a).sections) ≡ false)
            × ((create_section rt test input db).1
                ≡ insert_section rt test
                    (next_order (λ s. s.order) (with_content db a).sections)
                    input
                    db))
  unfolding create_section content assert_name_free
  create-cases rt test input db = elim (Option-cases (find_test test db)) [
    | inl e ↦ inl (rw e refl)
    | inr (a, e) ↦ elim (Bool-cases (leb max_sections (length (with_content db a).sections))) [
      | inl f ↦ inl (rw (e, f) refl)
      | inr f ↦ elim (Bool-cases (is_name_taken rt (with_content db a) input.name none)) [
        | inl g ↦ inl (rw (e, f, g) refl)
        | inr g ↦ inr (a, e, g, f, rw (e, f, g) (content_state test _))
      ]
    ]
  ]

  name-IsFree-cases :
      (rt : Runtime) (db : Library F) (a : AssessmentRow F) (id : String) (name : Option String)
      → ((assert_name_free rt (with_content db a) name (some id) db ≡ (ok tt, db))
          × IsFree rt db a id name)
        ⊎ ((e : HttpError) × (assert_name_free rt (with_content db a) name (some id) db
              ≡ (err e, db)))
  unfolding assert_name_free
  name-IsFree-cases rt db a id none = inl (refl, tt)
  name-IsFree-cases rt db a id (some name) =
      elim (Bool-cases (is_name_taken rt (with_content db a) name (some id))) [
        | inl e ↦ inr (conflict (name_taken name), rw e refl)
        | inr e ↦ inl (rw e refl, e)
      ]

  update-cases :
      (rt : Runtime) (test id : String) (patch : SectionPatch F) (db : Library F)
      → ((update_section rt test id patch db).1 ≡ db)
        ⊎ ((a : AssessmentRow F) × (find_test test db ≡ some a)
            × ((found : SectionRow F) × (find_section (with_content db a) id ≡ some found))
            × IsFree rt db a id patch.name
            × ((update_section rt test id patch db).1 ≡ record db {
              sections = update_many (λ s. section_id s === id) (patched patch) db.sections;
            }))
  unfolding update_section content assert_name_free
  update-cases rt test id patch db = elim (Option-cases (find_test test db)) [
    | inl e ↦ inl (rw e refl)
    | inr (a, e) ↦ elim (Option-cases (find_section (with_content db a) id)) [
      | inl f ↦ inl (rw (e, f) refl)
      | inr (found, f) ↦ elim (name-IsFree-cases rt db a id patch.name) [
        | inl (g, free) ↦ inr (a, e, (found, f), free, rw (e, f, g) (content_state test _))
        | inr (error, g) ↦ inl (rw (e, f, g) refl)
      ]
    ]
  ]

  remove-cases :
      (test id : String) (db : Library F)
      → ((remove_section test id db).1 ≡ db)
        ⊎ ((remove_section test id db).1 ≡ delete_section id db)
  unfolding remove_section content
  remove-cases test id db = ground arith

  reorder-cases :
      (test : String) (ids : List String) (db : Library F)
      → ((reorder_sections test ids db).1 ≡ db)
        ⊎ ((reorder_sections test ids db).1
            ≡ record db { sections = reorder_from section_id with_section_order 0 ids db.sections })
  unfolding reorder_sections content
  reorder-cases test ids db = ground arith

  module _ (rt : Runtime) where
    found_count :
        (db : Library F) (a : AssessmentRow F) (id : String) (found : SectionRow F)
        → find_section (with_content db a) id ≡ some found
        → 1 ≤ count_if (λ s. is_section_of a.id s && has_id id s) db.sections
    unfolding find_section
    found_count db a id found e =
        rw (← content_count (λ s. s.id === id) db a)
          (find?_count (λ s. s.id === id) (with_content db a).sections found e)

    same_test :
        (test : String) (db : Library F) (a : AssessmentRow F)
        → find_test test db ≡ some a
        → a.id ≡ test
    same_test test db a e = (eq_iff a.id test).0 (find?_passes (λ b. b.id === test) db.tests a e)

    create-IsTidy :
        ((m n : ℕ) → rt.row_id m ≡ rt.row_id n → m ≡ n)
        → (test : String) (input : SectionInput F) (db : Library F) → IsTidy rt db
        → IsTidy rt (create_section rt test input db).1
    create-IsTidy inj test input db h = elim (create-cases rt test input db) [
      | inl e ↦ rw e h
      | inr (a, found, free, room, e) ↦
          rw (e, ← same_test test db a found)
            (insert_section-IsTidy rt inj db a _ input free room h)
    ]

    update-IsTidy :
        (test id : String) (patch : SectionPatch F) (db : Library F)
        → IsTidy rt db
        → IsTidy rt (update_section rt test id patch db).1
    unfolding patched
    update-IsTidy test id patch db h = elim (update-cases rt test id patch db) [
      | inl e ↦ rw e h
      | inr (a, _, (found, f), free, e) ↦ rw e (
          rewrite-IsTidy rt db (λ s. if section_id s === id then patched patch s else s)
            (λ t m. patched_named rt db a id patch t m free (found_count db a id found f) h)
            (λ s. ground arith) (λ s. ground arith) h)
    ]

    remove-IsTidy :
        (test id : String) (db : Library F) → IsTidy rt db → IsTidy rt (remove_section test id db).1
    unfolding delete_section
    remove-IsTidy test id db h = elim (remove-cases test id db) [
      | inl e ↦ rw e h
      | inr e ↦ rw e (filter-IsTidy rt db (λ s. not (section_id s === id)) h)
    ]

    reorder_sections-IsTidy :
        (test : String) (ids : List String) (db : Library F)
        → IsTidy rt db
        → IsTidy rt (reorder_sections test ids db).1
    reorder_sections-IsTidy test ids db h = elim (reorder-cases test ids db) [
      | inl e ↦ rw e h
      | inr e ↦ rw e (reorder-IsTidy rt ids 0 db h)
    ]

    -- Where row ids never repeat, whatever is asked for the sections of a test, accepted or refused, no
    -- test gets two sections whose names differ in case only, or more than 20 sections; and the ids of
    -- sections stay unique.
    pub edit_sections-IsTidy :
        ((m n : ℕ) → rt.row_id m ≡ rt.row_id n → m ≡ n)
        → (test : String) (e : SectionEdit F) (db : Library F) → IsTidy rt db
        → IsTidy rt (edit_sections rt test e db).1
    unfolding edit_sections
    edit_sections-IsTidy inj test (create input) db h = create-IsTidy inj test input db h
    edit_sections-IsTidy inj test (update id patch) db h = update-IsTidy test id patch db h
    edit_sections-IsTidy inj test (remove id) db h = remove-IsTidy test id db h
    edit_sections-IsTidy inj test (reorder ids) db h = reorder_sections-IsTidy test ids db h
