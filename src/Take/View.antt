-- ===== src/Take/View.antt =====
-- take-view.ts: what a candidate sees of a snapshot, and the key that staff see.
use tmx_assessment.Prelude.{
  ◌+◌, ℕ, suc, String, Bool, true, false, Option, none, some, List, [], ◌∷◌, map, find?,
  if◌then◌else◌,
}
use mathlib.Core.Option
use Prim.Native.String.{◌++◌ as append}
use tmx_assessment.Prelude.Int.{ℤ, eqb_ℤ}
use tmx_assessment.Prelude.Dict.{Dict, get, from_entries}
use tmx_assessment.Schema.{ScoringMethod, QuestionType}
use tmx_assessment.Canonical.Rules.{is_scale}
use tmx_assessment.Canonical.Snapshot.{SnapshotOption, SnapshotQuestion, AssessmentSnapshot}
use tmx_assessment.Canonical.Layout.{LayoutEntry, AttemptLayout}

pub record TakeMedia : Type 0 where
  pub url : String
  pub mime_type : String

pub record TakeOption : Type 0 where
  pub id : String
  pub text : String

pub record TakeQuestion : Type 0 where
  pub id : String
  pub number : ℕ
  pub type : QuestionType
  pub instruction : Option String
  pub context : Option String
  pub stem : String
  pub media : Option TakeMedia
  pub options : List TakeOption

pub record TakeSettings : Type 0 where
  pub allow_back_navigation : Bool
  pub audio_replays : ℕ
  pub scoring_method : ScoringMethod

pub data KeyKind : Type 0 where
  role_profile : KeyKind
  correct : KeyKind

pub record AnswerKey : Type 0 where
  pub question_id : String
  pub option_id : String
  pub kind : KeyKind

abbrev pub media_url : String → String
media_url id = append "/api/media/" id

abbrev pub by_id : List SnapshotQuestion → Dict SnapshotQuestion
by_id questions = from_entries [] (map (λ q. (q.id, q)) questions)

abbrev pub options_by_id : List SnapshotOption → Dict SnapshotOption
options_by_id options = from_entries [] (map (λ o. (o.id, o)) options)

-- `flatMap` over an optional result
abbrev pub and_then {ℓ} : {A : Type ℓ} → Option A → List A → List A
and_then none rest = rest
and_then (some a) rest = a ∷ rest

unfoldable pub take_options : Dict SnapshotOption → List String → List TakeOption
unfolding get
take_options options [] = []
take_options options (id ∷ ids) =
    and_then (Option.map (λ o. record { id = o.id; text = o.text }) (get id options))
      (take_options options ids)

unfoldable pub take_question : LayoutEntry → ℕ → SnapshotQuestion → TakeQuestion
unfolding take_options from_entries
take_question entry index q = record {
  id = q.id;
  number = index + 1;
  type = q.type;
  instruction = q.instruction;
  context = q.context;
  stem = q.stem;
  media = Option.map (λ m. record { url = media_url m.id; mime_type = m.mime_type }) q.media;
  options = take_options (options_by_id q.options) entry.option_ids;
}

-- `index` counts the layout's entries, the ones without a question too.
unfoldable pub take_entries : Dict SnapshotQuestion → ℕ → List LayoutEntry → List TakeQuestion
unfolding take_question get
take_entries questions index [] = []
take_entries questions index (entry ∷ entries) =
    and_then (Option.map (take_question entry index) (get entry.question_id questions))
      (take_entries questions (suc index) entries)

module _ {F : Type 0} where
  unfoldable pub take_questions : AssessmentSnapshot F → AttemptLayout → List TakeQuestion
  unfolding take_entries from_entries
  take_questions snapshot layout = take_entries (by_id snapshot.questions) 0 layout.questions

  unfoldable pub take_settings : AssessmentSnapshot F → TakeSettings
  take_settings snapshot = record {
    allow_back_navigation = snapshot.allow_back_navigation;
    audio_replays = snapshot.audio_replays;
    scoring_method = snapshot.scoring_method;
  }

-- `a === b` of two numbers that can be null
abbrev pub same_value : Option ℤ → Option ℤ → Bool
same_value none none = true
same_value (some x) (some y) = eqb_ℤ x y
same_value none (some y) = false
same_value (some x) none = false

-- The right option, or the role profile's option on a scale.
unfoldable pub key_option : SnapshotQuestion → Option SnapshotOption
unfolding is_scale
key_option q =
    if is_scale q.type
    then find? (λ o. same_value o.value q.employer_value) q.options
    else find? (λ o. o.is_correct) q.options

unfoldable pub key_of : SnapshotQuestion → Option AnswerKey
unfolding key_option is_scale
key_of q =
    Option.map
      (λ o. record {
        question_id = q.id;
        option_id = o.id;
        kind = if is_scale q.type then role_profile else correct;
      })
      (key_option q)

unfoldable pub answer_keys : List SnapshotQuestion → List AnswerKey
unfolding key_of
answer_keys [] = []
answer_keys (q ∷ qs) = and_then (key_of q) (answer_keys qs)

unfoldable pub answer_key : {F : Type 0} → AssessmentSnapshot F → List AnswerKey
unfolding answer_keys
answer_key snapshot = answer_keys snapshot.questions
