-- ===== src/Edit/Questions/Stored.antt =====
-- Proofs about `questionFields` and `toCanonicalQuestion`: a question that was written is read back.
use tmx_assessment.Prelude.{
  ℕ, suc, ◌≤◌, ◌≡◌, refl, ap, ◌∙◌, arith, String, Bool, true, false, ltb, Option, none, some, List,
  [], ◌∷◌, map, All, All-map, if◌then◌else◌,
}
use tmx_assessment.Prelude.Sort.{IsSorted, sort_sorted}
use tmx_assessment.Schema.{ScoringMethod, MediaRow}
use tmx_assessment.Canonical.Questions.{
  CanonicalOption, CanonicalMedia, CanonicalQuestion, normalize_question, normalize_options,
  normalize_option, scale_option, choice_option,
}
use tmx_assessment.Canonical.Questions.Normal.{normalize_question-twice}
use tmx_assessment.Canonical.Questions.Problems.{question_problems}
use tmx_assessment.Canonical.Mapper.{
  QuestionLinks, option_fields, question_fields, to_canonical_option, to_canonical_question,
  canonical_media, truthy, stored_problems,
}
use tmx_assessment.Edit.Store.{option_before, load_option, load_question, find_media}
use tmx_assessment.Edit.Questions.{create_options, new_question}

abbrev HasLabel : CanonicalOption → Type 0
HasLabel o = (label : String) × (o.label ≡ some label)

normalize_options-HasLabel :
    (scale : Bool) (i : ℕ) (os : List CanonicalOption) → All HasLabel (normalize_options scale i os)
unfolding normalize_options normalize_option scale_option choice_option
normalize_options-HasLabel scale i [] = tt
normalize_options-HasLabel true i (o ∷ os) = ((_, refl), normalize_options-HasLabel true (suc i) os)
normalize_options-HasLabel false i (o ∷ os) =
    ((_, refl), normalize_options-HasLabel false (suc i) os)

create_options_after :
    (row_id : ℕ → String) (drawn order low : ℕ) (os : List CanonicalOption)
    → low ≤ order
    → All (λ o. low ≤ o.fields.order) (create_options row_id drawn order os)
unfolding create_options option_fields
create_options_after row_id drawn order low [] h = tt
create_options_after row_id drawn order low (o ∷ os) h =
    (h, create_options_after row_id (suc drawn) (suc order) low os (omega (arith, h)))

create_options-IsSorted :
    (row_id : ℕ → String) (drawn order : ℕ) (os : List CanonicalOption)
    → IsSorted option_before (create_options row_id drawn order os)
unfolding create_options option_fields
create_options-IsSorted row_id drawn order [] = tt
create_options-IsSorted row_id drawn order (o ∷ os) = (
  All-map (λ p. order ≤ p.fields.order) (λ p. ltb p.fields.order order ≡ false)
      (create_options row_id (suc drawn) (suc order) os) (λ p h. ground arith)
      (create_options_after row_id (suc drawn) (suc order) order os (omega arith)),
  create_options-IsSorted row_id (suc drawn) (suc order) os,
)

option_read :
    (id : String) (order : ℕ) (o : CanonicalOption)
    → HasLabel o
    → to_canonical_option (load_option (record { id = id; fields = option_fields order o })) ≡ o
unfolding to_canonical_option load_option option_fields
option_read id order o (label, e) = rw e refl

options_read :
    (row_id : ℕ → String) (drawn order : ℕ) (os : List CanonicalOption)
    → All HasLabel os
    → map to_canonical_option (map load_option (create_options row_id drawn order os)) ≡ os
unfolding create_options
options_read row_id drawn order [] a = refl
options_read row_id drawn order (o ∷ os) a =
    rw (option_read (row_id drawn) order o a.0, options_read row_id (suc drawn) (suc order) os a.1)
      refl

module _ (row_id : ℕ → String) (drawn : ℕ) (test : String) (order : ℕ) (links : QuestionLinks)
    (media : List MediaRow) where
  -- A normalized question that is written reads back as it was, with its section under the name that is
  -- asked for, and the media that its links find.
  pub question_read :
      (q : CanonicalQuestion) (section : Option String)
      → to_canonical_question
          (load_question media (new_question row_id drawn test order (normalize_question q) links))
          section
        ≡ record (normalize_question q) {
          section = section;
          media =
              canonical_media
                (find_media links.media_id media)
                (if truthy links.media_id then none else links.media_file_name);
        }
  unfolding to_canonical_question load_question new_question question_fields normalize_question
  question_read q section =
      rw
        (
          sort_sorted option_before (create_options row_id (suc drawn) 0 _)
              (create_options-IsSorted row_id (suc drawn) 0 (normalize_question q).options),
          options_read row_id (suc drawn) 0 (normalize_question q).options
              (normalize_options-HasLabel _ 0 _),
        )
        refl

  -- Section and media play no part in what is wrong with a question.
  same_question_problems :
      (q : CanonicalQuestion) (section : Option String) (file : Option CanonicalMedia)
      (method : ScoringMethod)
      → question_problems (normalize_question (record q { section = section; media = file })) method
        ≡ question_problems (normalize_question q) method
  unfolding question_problems normalize_question
  same_question_problems q section file method = refl

  -- What is wrong with a question in the database is what was wrong with it when it was written.
  pub stored_problems_new :
      (q : CanonicalQuestion) (method : ScoringMethod)
      → stored_problems
          (load_question media (new_question row_id drawn test order (normalize_question q) links))
          method
        ≡ question_problems (normalize_question q) method
  unfolding stored_problems
  stored_problems_new q method =
      ap (λ p. question_problems (normalize_question p) method) (question_read q none)
      ∙ same_question_problems (normalize_question q) none
          (canonical_media (find_media links.media_id media)
            (if truthy links.media_id then none else links.media_file_name))
          method
      ∙ ap (λ p. question_problems p method) (normalize_question-twice q)
