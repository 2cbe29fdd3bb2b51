-- ===== src/Canonical/Questions/Normal.antt =====
-- Proofs about `normalizeQuestion` of question-rules.ts: text and questions that were normalized before.
use tmx_assessment.Prelude.{
  ℕ, suc, ◌≡◌, refl, arith, String, Bool, true, false, Option, none, some, List, [], ◌∷◌, inl, inr,
  Bool-cases, if◌then◌else◌,
}
use Prim.Native.String.{[] as empty, ◌∷◌ as cons}
use tmx_assessment.Prelude.Int.{ℤ}
use tmx_assessment.Prelude.Text.{filled, trim, trim_start, trim_end}
use tmx_assessment.Schema.{QuestionType, single_choice, true_false, rating_scale, choice_scale}
use tmx_assessment.Canonical.Rules.{is_scale}
use tmx_assessment.Canonical.Questions.{
  CanonicalOption, CanonicalMedia, CanonicalQuestion, blank_to_null, text_or_none, source_options,
  normalize_option, normalize_options, normalize_media, normalize_question, scale_option,
  choice_option, media_of,
}

trim_end-twice : (s : String) → trim_end (trim_end s) ≡ trim_end s
unfolding trim_end
trim_end-twice empty = refl
trim_end-twice (cons c s) = ground (arith, trim_end-twice s)

trim_start-trim : (s : String) → trim_start (trim_end (trim_start s)) ≡ trim_end (trim_start s)
unfolding trim_end trim_start
trim_start-trim empty = refl
trim_start-trim (cons c s) = ground (arith, trim_start-trim s)

pub trim-twice : (s : String) → trim (trim s) ≡ trim s
unfolding trim
trim-twice s = rw (trim_start-trim s) (trim_end-twice (trim_start s))

blank_to_null-trimmed : (s : String) → blank_to_null (text_or_none (trim s)) ≡ text_or_none (trim s)
unfolding blank_to_null text_or_none
blank_to_null-trimmed s = elim (Bool-cases (filled (trim s))) [
  | inl e ↦ rw (e, trim-twice s) (rw (e, text_or_none) refl)
  | inr e ↦ rw (e, text_or_none) refl
]

blank_to_null-twice :
    (value : Option String) → blank_to_null (blank_to_null value) ≡ blank_to_null value
unfolding blank_to_null
blank_to_null-twice none = refl
blank_to_null-twice (some s) = blank_to_null-trimmed s

normalize_option-twice :
    (scale : Bool) (index : ℕ) (o : CanonicalOption)
    → normalize_option scale index (normalize_option scale index o) ≡ normalize_option scale index o
unfolding normalize_option scale_option choice_option
normalize_option-twice true index o =
    rw (trim-twice o.text, blank_to_null-twice o.employer_text) refl
normalize_option-twice false index o = rw (trim-twice o.text) refl

normalize_options-twice :
    (scale : Bool) (index : ℕ) (os : List CanonicalOption)
    → normalize_options scale index (normalize_options scale index os)
      ≡ normalize_options scale index os
unfolding normalize_options
normalize_options-twice scale index [] = refl
normalize_options-twice scale index (o ∷ os) =
    rw (normalize_option-twice scale index o, normalize_options-twice scale (suc index) os) refl

source_options-normal :
    (type : QuestionType) (scale : Bool) (os : List CanonicalOption)
    → source_options type (normalize_options scale 0 (source_options type os))
      ≡ normalize_options scale 0 (source_options type os)
unfolding source_options normalize_options
source_options-normal single_choice scale os = refl
source_options-normal true_false scale [] = refl
source_options-normal true_false scale (o ∷ os) = refl
source_options-normal rating_scale scale os = refl
source_options-normal choice_scale scale os = refl

blank_to_null-none : blank_to_null none ≡ none
unfolding blank_to_null
blank_to_null-none = refl

media_of-normal :
    (file asset_id : Option String)
    → blank_to_null file ≡ file
    → blank_to_null asset_id ≡ asset_id
    → normalize_media (media_of file asset_id) ≡ media_of file asset_id
unfolding normalize_media
media_of-normal none none e f = refl
media_of-normal none (some a) e f = rw (f, blank_to_null-none) refl
media_of-normal (some b) none e f = rw (e, blank_to_null-none) refl
media_of-normal (some b) (some a) e f = rw (e, f) refl

normalize_media-twice :
    (media : Option CanonicalMedia)
    → normalize_media (normalize_media media) ≡ normalize_media media
unfolding normalize_media
normalize_media-twice none = refl
normalize_media-twice (some media) =
    media_of-normal _ _ (blank_to_null-twice media.file) (blank_to_null-twice media.asset_id)

for_scale-twice :
    (scale : Bool) (prompt : Option String)
    → (if scale then blank_to_null (if scale then blank_to_null prompt else none) else none)
      ≡ (if scale then blank_to_null prompt else none)
for_scale-twice true prompt = blank_to_null-twice prompt
for_scale-twice false prompt = refl

kept-twice :
    (scale : Bool) (value : Option ℤ)
    → (if scale then if scale then value else none else none) ≡ (if scale then value else none)
kept-twice true value = refl
kept-twice false value = refl

-- Normalizing a question that was normalized changes nothing.
pub normalize_question-twice :
    (q : CanonicalQuestion) → normalize_question (normalize_question q) ≡ normalize_question q
unfolding normalize_question
normalize_question-twice q =
    rw
      (
        blank_to_null-twice q.ref,
        blank_to_null-twice q.section,
        blank_to_null-twice q.instruction,
        blank_to_null-twice q.context,
        trim-twice q.stem,
        normalize_media-twice q.media,
        blank_to_null-twice q.rationale,
        blank_to_null-twice q.transcript,
        source_options-normal q.type (is_scale q.type) q.options,
        normalize_options-twice (is_scale q.type) 0 (source_options q.type q.options),
        for_scale-twice (is_scale q.type) q.employer_prompt,
        kept-twice (is_scale q.type) q.employer_value,
      )
      refl
