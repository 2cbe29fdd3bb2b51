-- ===== src/Edit/Questions/Copied.antt =====
-- Proofs about `createQuestion` and `duplicateQuestion` as whole requests.
use tmx_assessment.Prelude.{
  ◌+◌, ◌≡◌, refl, sym, subst, ap, ◌∙◌, arith, String, true, false, leb, inl, inr, Bool-cases, some,
  List, [], ◌∷◌, ◌++◌, map, filter, find?, length,
}
use tmx_assessment.Prelude.Text.{◌===◌, eq_iff, eq_refl}
use tmx_assessment.Prelude.Sort.{sort, insert_last}
use tmx_assessment.Prelude.Counting.{find?_passes}
use tmx_assessment.Http.{ok}
use tmx_assessment.Schema.{QuestionRow, AssessmentRow}
use tmx_assessment.Canonical.Mapper.{QuestionLinks}
use tmx_assessment.Edit.Store.{
  StoredQuestion, Library, Runtime, content, find_test, with_content, load_question, is_question_of,
  question_before,
}
use tmx_assessment.Edit.Order.Requests.{ids_of, ids_read}
use tmx_assessment.Edit.Questions.{
  max_questions, question_id, new_question, insert_question, shift_after, copy_of, find_question,
  duplicate_question,
}
use tmx_assessment.Edit.Questions.Placed.{
  IsRising, inserted_rows, shifted_rows, room_sorted, placed_after, make_room,
}

found_now :
    (id : String) (load : StoredQuestion → QuestionRow) (r : StoredQuestion)
    (rs : List StoredQuestion) (q : QuestionRow)
    → ((load r).id === id) ≡ true
    → find? (λ r. r.id === id) (map load (r ∷ rs)) ≡ some q
    → load r ≡ q
found_now id load r rs q e h = ground arith

found_on :
    (id : String) (load : StoredQuestion → QuestionRow) (r : StoredQuestion)
    (rs : List StoredQuestion) (q : QuestionRow)
    → ((load r).id === id) ≡ false
    → find? (λ r. r.id === id) (map load (r ∷ rs)) ≡ some q
    → find? (λ r. r.id === id) (map load rs) ≡ some q
found_on id load r rs q e h = ground arith

find_split :
    (id : String) (load : StoredQuestion → QuestionRow) (rows : List StoredQuestion)
    (q : QuestionRow)
    → find? (λ r. r.id === id) (map load rows) ≡ some q
    → (before' : List StoredQuestion) × (s : StoredQuestion) × (after : List StoredQuestion) × (rows
        ≡ before' ++ s ∷ after)
      × (load s ≡ q)
find_split id load [] q h = ground arith
find_split id load (r ∷ rs) q h = elim (Bool-cases ((load r).id === id)) [
  | inl e ↦ ([], r, rs, refl, found_now id load r rs q e h)
  | inr e ↦
      let (before', s, after, f, g) = find_split id load rs q (found_on id load r rs q e h) in
      (r ∷ before', s, after, ap (λ xs. r ∷ xs) f, g)
]

map_middle :
    (xs ys : List StoredQuestion) (s : StoredQuestion)
    → map question_id (xs ++ s ∷ ys) ≡ map question_id xs ++ s.id ∷ map question_id ys
map_middle [] ys s = refl
map_middle (x ∷ xs) ys s = ap (λ is. x.id ∷ is) (map_middle xs ys s)

abbrev pub rows_of : {F : Type 0} → Library F → AssessmentRow F → List StoredQuestion
rows_of db a = sort question_before (filter (is_question_of a.id) db.questions)

module _ {F : Type 0} (rt : Runtime) (id : String) (db : Library F) (a : AssessmentRow F)
    (original : QuestionRow) where
  abbrev copy_links : QuestionLinks
  copy_links = record {
    section_id = original.section_id;
    media_id = original.media_id;
    media_file_name = original.media_file_name;
  }

  abbrev copy_row : StoredQuestion
  unfolding new_question copy_of
  copy_row = new_question rt.row_id db.drawn a.id (original.order + 1) (copy_of original) copy_links

  abbrev with_copy : Library F
  unfolding shift_after insert_question copy_of
  with_copy =
      insert_question rt.row_id a.id (original.order + 1) (copy_of original) copy_links
        (shift_after a.id original.order db)

  rows_after :
      (before' after : List StoredQuestion) (s : StoredQuestion)
      → rows_of db a ≡ before' ++ s ∷ after
      → s.order ≡ original.order
      → IsRising (rows_of db a)
      → map question_id (rows_of with_copy a)
        ≡ map question_id before' ++ s.id ∷ rt.row_id db.drawn ∷ map question_id after
  unfolding shift_after insert_question new_question copy_row with_copy
  rows_after before' after s f g r =
      ap (map question_id) (
        inserted_rows (shift_after a.id original.order db).questions a.id copy_row (eq_refl a.id)
        ∙ ap (insert_last question_before copy_row) (
            ap (sort question_before) (shifted_rows db.questions a.id original.order)
            ∙ room_sorted (filter (is_question_of a.id) db.questions) original.order
            ∙ ap (map (make_room original.order)) f))
      ∙ subst
          (λ o.
            map question_id
              (insert_last question_before copy_row (map (make_room o) (before' ++ s ∷ after)))
            ≡ map question_id before' ++ s.id ∷ rt.row_id db.drawn ∷ map question_id after)
          g (placed_after before' after s copy_row (subst IsRising f r) (ap (λ o. o + 1) (sym g)))

  found_row :
      find_question (with_content db a) id ≡ some original
      → (before' : List StoredQuestion) × (s : StoredQuestion) × (after : List StoredQuestion)
        × (rows_of db a ≡ before' ++ s ∷ after)
        × (s.order ≡ original.order)
        × (s.id ≡ id)
  unfolding find_question with_content load_question
  found_row own =
      let (before', s, after, f, g) =
        find_split id (load_question db.media) (rows_of db a) original own in
      let passes = find?_passes (λ q. q.id === id) (with_content db a).questions original own in
      (
        before',
        s,
        after,
        f,
        ap (λ q. q.order) g,
        ap (λ q. q.id) g ∙ (eq_iff original.id id).0 passes,
      )

  -- When a test has room, and no two of its questions have the same order, duplicating one of them puts
  -- a question with a new id straight after it, and keeps the others where they are.
  pub duplicate_question_places :
      find_test a.id db ≡ some a
      → find_question (with_content db a) id ≡ some original
      → leb max_questions (length (with_content db a).questions) ≡ false
      → IsRising (rows_of db a)
      → (before' after : List String) × (c : AssessmentRow F) × (d : Library F) × (ids_of
            (with_content db a).questions
          ≡ before' ++ id ∷ after)
        × (duplicate_question rt a.id id db ≡ (ok c, d))
        × (ids_of c.questions ≡ before' ++ id ∷ rt.row_id db.drawn ∷ after)
  unfolding duplicate_question content with_copy
  duplicate_question_places found own room r =
      let (before', s, after, f, o, i) = found_row own in
      (
        map question_id before',
        map question_id after,
        with_content with_copy a,
        with_copy,
        subst
            (λ x.
              ids_of (with_content db a).questions
              ≡ map question_id before' ++ x ∷ map question_id after)
            i (ids_read db a ∙ ap (map question_id) f ∙ map_middle before' after s),
        rw (found, own, room, found) refl,
        subst
            (λ x.
              ids_of (with_content with_copy a).questions
              ≡ map question_id before' ++ x ∷ rt.row_id db.drawn ∷ map question_id after)
            i (ids_read with_copy a ∙ rows_after before' after s f o r),
      )
