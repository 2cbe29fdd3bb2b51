-- ===== src/Edit/Sections/Names.antt =====
-- Proofs about the sections of a test: their names never collide, and there are never more than fit.
use tmx_assessment.Prelude.{
  ℕ, suc, ◌+◌, ◌≤◌, ◌≡◌, refl, sym, subst, ◌∙◌, arith, String, Bool, true, false, ◌&&◌, leb, Option,
  none, some, List, [], ◌∷◌, map, filter, length, count_if, inl, inr, Option-cases, if◌then◌else◌,
}
use tmx_assessment.Prelude.Text.{◌===◌, eq_iff}
use tmx_assessment.Prelude.Sort.{sort}
use tmx_assessment.Prelude.Counting.{
  count_if-map, count_if-sort, count_if-filter, any_count, count_if_bound, count_if_le,
  count_if-filter_le, count_if_apart, count_if_all, count_if_ext, count_if-snoc,
}
use tmx_assessment.Schema.{SectionRow, AssessmentRow}
use tmx_assessment.Take.Store.{update_many}
use tmx_assessment.Edit.Store.{
  StoredSection, Library, Runtime, with_content, is_section_of, section_before,
}
use tmx_assessment.Edit.Sections.{
  max_sections, SectionInput, SectionPatch, is_not, reorder_from, section_id, with_section_order,
  patched, is_name_taken, clashes, insert_section,
}

module _ {F : Type 0} where
  abbrev pub has_id : String → StoredSection F → Bool
  has_id id s = section_id s === id

  pub content_count :
      (p : SectionRow F → Bool) (db : Library F) (a : AssessmentRow F)
      → count_if p ((with_content db a).sections)
        ≡ count_if (λ s. is_section_of a.id s && p s.row) db.sections
  unfolding with_content
  content_count p db a =
      count_if-map p (λ s. s.row) (sort section_before (filter (is_section_of a.id) db.sections))
      ∙ count_if-sort section_before (λ s. p s.row) (filter (is_section_of a.id) db.sections)
      ∙ count_if-filter (λ s. p s.row) (is_section_of a.id) db.sections

  module _ (rt : Runtime) where
    abbrev pub is_named : String → String → StoredSection F → Bool
    is_named test name s =
        is_section_of test s && (rt.unicode.lower s.row.name === rt.unicode.lower name)

    -- No test has two sections whose names differ in case only, or more sections than fit; row ids do
    -- not repeat, and those still to be drawn are not in use.
    abbrev pub IsTidy : Library F → Type 0
    IsTidy db =
        ((test name : String) → count_if (is_named test name) db.sections ≤ 1)
        × ((test : String) → count_if (is_section_of test) db.sections ≤ max_sections)
        × ((id : String) → count_if (has_id id) db.sections ≤ 1)
        × ((n : ℕ) → db.drawn ≤ n → count_if (has_id (rt.row_id n)) db.sections ≡ 0)

    free_count :
        (db : Library F) (a : AssessmentRow F) (name : String) (except : Option String)
        → is_name_taken rt (with_content db a) name except ≡ false
        → count_if (λ s. is_section_of a.id s && clashes rt name except s.row) db.sections ≡ 0
    unfolding is_name_taken
    free_count db a name except h =
        sym (content_count (clashes rt name except) db a)
        ∙ any_count (clashes rt name except) (with_content db a).sections h

    free_of_name :
        (db : Library F) (a : AssessmentRow F) (name m t : String) (except : Option String)
        → is_name_taken rt (with_content db a) name except ≡ false
        → a.id ≡ t
        → rt.unicode.lower name ≡ rt.unicode.lower m
        → count_if (λ s. is_not except s.row.id && is_named t m s) db.sections ≡ 0
    free_of_name db a name m t except h e f = omega (
      arith,
      free_count db a name except h,
      count_if_le (λ s. is_not except s.row.id && is_named t m s)
          (λ s. is_section_of a.id s && clashes rt name except s.row) db.sections
          (λ s. rw (← e, ← f) (ground arith)),
    )

    size_of :
        (db : Library F) (a : AssessmentRow F)
        → count_if (is_section_of a.id) db.sections ≡ length (with_content db a).sections
    size_of db a =
        count_if_ext (is_section_of a.id) (λ s. is_section_of a.id s && true) db.sections
          (λ s. ground arith)
        ∙ sym (content_count (λ s. true) db a)
        ∙ count_if_all (with_content db a).sections

    pub insert_section-IsTidy :
        ((m n : ℕ) → rt.row_id m ≡ rt.row_id n → m ≡ n)
        → (db : Library F) (a : AssessmentRow F) (order : ℕ) (input : SectionInput F)
        → is_name_taken rt (with_content db a) input.name none ≡ false
        → leb max_sections (length (with_content db a).sections) ≡ false
        → IsTidy db
        → IsTidy (insert_section rt a.id order input db)
    unfolding insert_section
    insert_section-IsTidy inj db a order input free room (names, sizes, ids, fresh) =
        let full : (t : String)
            → a.id ≡ t
            → count_if (is_section_of t) db.sections + 1 ≤ max_sections =
          λ t e. rw (← e) (ground (arith, size_of db a)) in
        let unused : (i : String) → rt.row_id db.drawn ≡ i → count_if (has_id i) db.sections ≡ 0 =
          λ i e. rw (← e) (fresh db.drawn (omega arith)) in
        (
          (λ t m. rw (count_if-snoc (is_named t m) db.sections _) (
              ground (
                arith,
                eq_iff a.id t,
                eq_iff (rt.unicode.lower input.name) (rt.unicode.lower m),
                names t m,
                free_of_name db a input.name m t none free,
              ))),
          (λ t.
              rw (count_if-snoc (is_section_of t) db.sections _)
                (ground (arith, eq_iff a.id t, sizes t, full t))),
          (λ i.
              rw (count_if-snoc (has_id i) db.sections _)
                (ground (arith, eq_iff (rt.row_id db.drawn) i, ids i, unused i))),
          (λ n le.
              rw (count_if-snoc (has_id (rt.row_id n)) db.sections _) (
                ground
                  (arith, eq_iff (rt.row_id db.drawn) (rt.row_id n), fresh n, inj db.drawn n))),
        )

    -- A section of one test is no section of another.
    apart_count :
        (db : Library F) (a : AssessmentRow F) (id t : String)
        → 1 ≤ count_if (λ s. is_section_of a.id s && has_id id s) db.sections
        → count_if (has_id id) db.sections ≤ 1
        → (a.id ≡ t → ⊥)
        → count_if (λ s. has_id id s && is_section_of t s) db.sections ≡ 0
    apart_count db a id t h u n = omega (
      arith,
      count_if_apart (λ s. is_section_of a.id s && has_id id s)
          (λ s. has_id id s && is_section_of t s) (has_id id) db.sections (λ s. ground arith)
          (λ s. ground arith)
          (λ s. ground (arith, eq_iff s.assessment_id a.id, eq_iff s.assessment_id t)),
    )

    abbrev pub is_named_after : SectionPatch F → String → String → String → StoredSection F → Bool
    unfolding patched
    is_named_after patch id t m s = is_named t m (if has_id id s then patched patch s else s)

    -- What has the name after the change was renamed, or had the name before.
    renamed_count :
        (db : Library F) (patch : SectionPatch F) (id name t m : String)
        → patch.name ≡ some name
        → count_if (is_named_after patch id t m) db.sections
          ≤ count_if (λ s. has_id id s && is_section_of t s) db.sections
            + count_if (λ s. is_not (some id) s.row.id && is_named t m s) db.sections
    unfolding patched
    renamed_count db patch id name t m e =
        count_if_bound (is_named_after patch id t m) (λ s. has_id id s && is_section_of t s)
          (λ s. is_not (some id) s.row.id && is_named t m s) db.sections (λ s. rw e (ground arith))

    -- Other names are as frequent as before.
    other_count :
        (db : Library F) (patch : SectionPatch F) (id name t m : String)
        → patch.name ≡ some name
        → (rt.unicode.lower name === rt.unicode.lower m) ≡ false
        → count_if (is_named_after patch id t m) db.sections ≤ count_if (is_named t m) db.sections
    unfolding patched
    other_count db patch id name t m e n =
        count_if_le (is_named_after patch id t m) (is_named t m) db.sections
          (λ s. rw e (ground arith))

    unnamed_count :
        (db : Library F) (patch : SectionPatch F) (id t m : String)
        → patch.name ≡ none
        → count_if (is_named_after patch id t m) db.sections ≤ count_if (is_named t m) db.sections
    unfolding patched
    unnamed_count db patch id t m e =
        count_if_le (is_named_after patch id t m) (is_named t m) db.sections
          (λ s. rw e (ground arith))

    -- The name a patch gives, if it gives one, is free.
    abbrev pub IsFree : Library F → AssessmentRow F → String → Option String → Type 0
    IsFree db a id none = Unit
    IsFree db a id (some name) = is_name_taken rt (with_content db a) name (some id) ≡ false

    pub patched_named :
        (db : Library F) (a : AssessmentRow F) (id : String) (patch : SectionPatch F) (t m : String)
        → IsFree db a id patch.name
        → 1 ≤ count_if (λ s. is_section_of a.id s && has_id id s) db.sections
        → IsTidy db
        → count_if (is_named_after patch id t m) db.sections ≤ 1
    patched_named db a id patch t m free own (names, sizes, ids, fresh) =
        elim (Option-cases patch.name) [
          | inl e ↦ omega (arith, unnamed_count db patch id t m e, names t m)
          | inr (name, e) ↦
              let free' : is_name_taken rt (with_content db a) name (some id) ≡ false =
                subst (IsFree db a id) e free in
              ground (
                arith,
                eq_iff a.id t,
                eq_iff (rt.unicode.lower name) (rt.unicode.lower m),
                names t m,
                ids id,
                renamed_count db patch id name t m e,
                other_count db patch id name t m e,
                free_of_name db a name m t (some id) free',
                apart_count db a id t own (ids id),
                count_if_le (λ s. has_id id s && is_section_of t s) (has_id id) db.sections
                    (λ s. ground arith),
                count_if_le (λ s. is_not (some id) s.row.id && is_named t m s) (is_named t m)
                    db.sections (λ s. ground arith),
              )
        ]

    -- The sections after `update`, `delete` and a reordering.
    abbrev pub with_sections : List (StoredSection F) → Library F → Library F
    with_sections rows db = record db { sections = rows }

    pub rewrite-IsTidy :
        (db : Library F) (change : StoredSection F → StoredSection F)
        → ((t m : String) → count_if (λ s. is_named t m (change s)) db.sections ≤ 1)
        → ((s : StoredSection F) → (change s).assessment_id ≡ s.assessment_id)
        → ((s : StoredSection F) → section_id (change s) ≡ section_id s)
        → IsTidy db
        → IsTidy (with_sections (map change db.sections) db)
    rewrite-IsTidy db change named same_test same_id (names, sizes, ids, fresh) = (
      (λ t m. rw (count_if-map (is_named t m) change db.sections) (named t m)),
      (λ t.
          rw
            (
              count_if-map (is_section_of t) change db.sections,
              count_if_ext (λ s. is_section_of t (change s)) (is_section_of t) db.sections
                  (λ s. rw (same_test s) refl),
            )
            (sizes t)),
      (λ i.
          rw
            (
              count_if-map (has_id i) change db.sections,
              count_if_ext (λ s. has_id i (change s)) (has_id i) db.sections
                  (λ s. rw (same_id s) refl),
            )
            (ids i)),
      (λ n le.
          rw
            (
              count_if-map (has_id (rt.row_id n)) change db.sections,
              count_if_ext (λ s. has_id (rt.row_id n) (change s)) (has_id (rt.row_id n)) db.sections
                  (λ s. rw (same_id s) refl),
            )
            (fresh n le)),
    )

    pub filter-IsTidy :
        (db : Library F) (keep : StoredSection F → Bool)
        → IsTidy db
        → IsTidy (with_sections (filter keep db.sections) db)
    filter-IsTidy db keep (names, sizes, ids, fresh) =
        let fewer : (p : StoredSection F → Bool)
            → count_if p (filter keep db.sections) ≤ count_if p db.sections =
          λ p. count_if-filter_le p keep db.sections in
        (
          (λ t m. omega (arith, fewer (is_named t m), names t m)),
          (λ t. omega (arith, fewer (is_section_of t), sizes t)),
          (λ i. omega (arith, fewer (has_id i), ids i)),
          (λ n le. omega (arith, fewer (has_id (rt.row_id n)), fresh n le)),
        )

    pub reorder-IsTidy :
        (ids : List String) (k : ℕ) (db : Library F)
        → IsTidy db
        → IsTidy (with_sections (reorder_from section_id with_section_order k ids db.sections) db)
    unfolding reorder_from
    reorder-IsTidy [] k db h = h
    reorder-IsTidy (i ∷ is) k db h =
        reorder-IsTidy is (suc k)
          (with_sections (update_many (λ s. section_id s === i) (with_section_order k) db.sections)
            db)
          (rewrite-IsTidy db (λ s. if section_id s === i then with_section_order k s else s)
            (λ t m. omega (
              arith,
              h.0 t m,
              count_if_ext
                  (λ s. is_named t m (if section_id s === i then with_section_order k s else s))
                  (is_named t m) db.sections (λ s. ground arith),
            ))
            (λ s. ground arith) (λ s. ground arith) h)
