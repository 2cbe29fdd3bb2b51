-- ===== src/Take/Service.antt =====
-- take.service.ts: what a candidate does through a link. A request runs at one instant, `now`, and its
-- statements one after another; Take/Traces interleaves the statements of several requests.
use tmx_assessment.Prelude.{
  ℕ, ◌+◌, ◌*◌, String, Bool, true, false, ◌&&◌, not, Option, none, some, List, [], ◌∷◌, map, filter,
  find?, any, length, leb, ltb, ◌==◌, if◌then◌else◌,
}
use tmx_assessment.Prelude.Text.{◌===◌}
use tmx_assessment.Prelude.Sort.{sort}
use tmx_assessment.Schema.{AttemptStatus, not_started, in_progress, submitted, expired}
use tmx_assessment.Float.{Float}
use tmx_assessment.Http.{
  bad_request, not_found, conflict, gone, internal, ok, Action, pure, throw, gets, found_or, modify,
  throw_if, ◌>>=◌, ◌>>◌,
}
use tmx_assessment.Canonical.Snapshot.{SnapshotQuestion, AssessmentSnapshot}
use tmx_assessment.Canonical.Layout.{Random, AttemptLayout, build_layout}
use tmx_assessment.Take.Store.{
  Attempt, Answer, Invitation, Store, update_many, open_attempt, upsert_answer, find_attempt,
}
use tmx_assessment.Take.Attempts.{is_overdue, finish, finalize_overdue}
use tmx_assessment.Take.View.{TakeQuestion, TakeSettings, take_questions, take_settings}

abbrev pub take_link_expired : String
take_link_expired = "This link has expired. Ask the person who sent it for a new one."

abbrev pub attempt_not_found : String
attempt_not_found = "That test isn’t part of this link."

abbrev pub already_finished : String
already_finished = "You’ve already finished this test."

abbrev pub not_started_yet : String
not_started_yet = "Start the test before answering."

abbrev pub time_up : String
time_up = "Time’s up for this test, so it was submitted with the answers you gave."

abbrev pub not_an_option : String
not_an_option = "That answer isn’t one of this question’s options."

pub record TakeAttempt : Type 0 where
  pub id : String
  pub status : AttemptStatus
  pub name : String
  pub instructions : Option String
  pub duration_minutes : ℕ
  pub started_at : Option ℕ
  pub deadline_at : Option ℕ
  pub server_now : ℕ
  pub settings : TakeSettings
  pub questions : List TakeQuestion
  pub answers : List (String × String)

pub record OverviewAttempt : Type 0 where
  pub id : String
  pub name : String
  pub tagline : Option String
  pub instructions : Option String
  pub duration_minutes : ℕ
  pub question_count : ℕ
  pub has_audio : Bool
  pub settings : TakeSettings
  pub status : AttemptStatus
  pub deadline_at : Option ℕ

pub record TakeOverview : Type 0 where
  pub candidate_name : String
  pub sent_by_name : Option String
  pub message : Option String
  pub expires_at : ℕ
  pub server_now : ℕ
  pub attempts : List OverviewAttempt

-- Whether the option is one of the question's, and the question one of the snapshot's.
unfoldable pub is_choice : {F : Type 0} → AssessmentSnapshot F → String → String → Bool
is_choice snapshot question_id option_id =
    elim (find? (λ q. q.id === question_id) snapshot.questions) [
      | none ↦ false
      | some q ↦ any (λ o. o.id === option_id) q.options
    ]

abbrev has_media : SnapshotQuestion → Bool
has_media q = elim q.media [ none ↦ false | some media ↦ true ]

-- `readLayout`: a layout of another version counts as none.
unfoldable pub read_layout : Option AttemptLayout → Option AttemptLayout
read_layout none = none
read_layout (some layout) = if layout.version == 1 then some layout else none

unfoldable pub overview_attempt : {F : Type 0} → Attempt F → OverviewAttempt
unfolding take_settings
overview_attempt attempt = record {
  id = attempt.id;
  name = attempt.snapshot.name;
  tagline = attempt.snapshot.tagline;
  instructions = attempt.snapshot.instructions;
  duration_minutes = attempt.snapshot.duration_minutes;
  question_count = length attempt.snapshot.questions;
  has_audio = any has_media attempt.snapshot.questions;
  settings = take_settings attempt.snapshot;
  status = attempt.status;
  deadline_at = attempt.deadline_at;
}

-- The saved answers of an attempt, as pairs.
abbrev pub saved_answers : String → List Answer → List (String × String)
saved_answers attempt_id answers =
    map (λ a. (a.question_id, a.option_id)) (filter (λ a. a.attempt_id === attempt_id) answers)

module _ {F R : Type 0} where
  unfoldable pub find_own : Invitation → String → Store F R → Option (Attempt F)
  find_own invitation id s =
      find? (λ a. a.id === id && a.invitation_id === invitation.id) s.attempts

  -- `findAttempt`
  unfoldable pub own_attempt : Invitation → String → Action (Store F R) (Attempt F)
  unfolding find_own
  own_attempt invitation id s = found_or (not_found attempt_not_found) (find_own invitation id s) s

  -- `findUniqueOrThrow`
  unfoldable pub reread : String → Action (Store F R) (Attempt F)
  reread id s = found_or internal (find_attempt id s.attempts) s

  unfoldable pub save_answer : String → String → String → Store F R → Store F R
  unfolding upsert_answer
  save_answer attempt_id question_id option_id s = record s {
    answers = upsert_answer attempt_id question_id option_id s.answers;
  }

  unfoldable pub opened_by : Invitation → ℕ → Store F R → Store F R
  opened_by invitation now s = record s {
    invitations =
        update_many (λ i. i.id === invitation.id) (λ i. record i { last_opened_at = some now })
          s.invitations;
  }

  unfoldable pub overview_of : Invitation → ℕ → Store F R → TakeOverview
  unfolding overview_attempt
  overview_of invitation now s = record {
    candidate_name = invitation.candidate_name;
    sent_by_name = invitation.sent_by_name;
    message = invitation.message;
    expires_at = invitation.expires_at;
    server_now = now;
    attempts = map overview_attempt (
        sort (λ a b. ltb a.order b.order)
          (filter (λ a. a.invitation_id === invitation.id) s.attempts));
  }

module _ (rand : Random) {F : Type 0} where
  open rand use {State}

  -- Draws a layout, and opens the attempt with it if it has not started.
  unfoldable pub open_now : ℕ → Attempt F → Store F State → Store F State
  unfolding build_layout open_attempt
  open_now now attempt s =
      let (layout, random) = build_layout rand s.random attempt.snapshot in
      let deadline = now + attempt.snapshot.duration_minutes * 60_000 in
      record s {
        attempts = open_attempt attempt.id now deadline layout s.attempts;
        random = random;
      }

  -- An attempt without a layout that can be read gets a new one, which is not stored.
  unfoldable pub layout_of : Attempt F → Action (Store F State) AttemptLayout
  unfolding build_layout read_layout
  layout_of attempt s = elim (read_layout attempt.layout) [
    | some layout ↦ (ok layout, s)
    | none ↦
        let (layout, random) = build_layout rand s.random attempt.snapshot in
        (ok layout, record s { random = random })
  ]

  unfoldable pub view : ℕ → Attempt F → List (String × String) → Action (Store F State) TakeAttempt
  unfolding layout_of take_questions take_settings
  view now attempt answers = do
    layout ← layout_of attempt
    pure (record {
      id = attempt.id;
      status = attempt.status;
      name = attempt.snapshot.name;
      instructions = attempt.snapshot.instructions;
      duration_minutes = attempt.snapshot.duration_minutes;
      started_at = attempt.started_at;
      deadline_at = attempt.deadline_at;
      server_now = now;
      settings = take_settings attempt.snapshot;
      questions = take_questions attempt.snapshot layout;
      answers = answers;
    })

  -- The part of `start` for an attempt that has not started.
  unfoldable pub start_clock : Invitation → ℕ → Attempt F → Action (Store F State) (Attempt F)
  unfolding open_now reread
  start_clock invitation now attempt =
      if leb invitation.expires_at now
      then throw (gone take_link_expired)
      else do modify (open_now now attempt); reread attempt.id

  unfoldable pub start_attempt : Invitation → ℕ → Attempt F → Action (Store F State) (Attempt F)
  unfolding start_clock
  start_attempt invitation now attempt = elim attempt.status [
    | submitted ↦ throw (conflict already_finished)
    | expired ↦ throw (conflict already_finished)
    | not_started ↦ start_clock invitation now attempt
    | in_progress ↦ pure attempt
  ]

-- How a submitted attempt ends: in time, or too late.
unfoldable pub final_status : Option ℕ → ℕ → AttemptStatus
unfolding is_overdue
final_status deadline now = if is_overdue deadline now then expired else submitted

module _ (fl : Float) {R : Type 0} where
  open fl use {F}

  -- `assertOpen`, which closes an attempt that is overdue
  unfoldable pub assert_open : ℕ → Attempt F → Action (Store F R) (Unit {0})
  unfolding is_overdue finish
  assert_open now attempt = elim attempt.status [
    | not_started ↦ throw (conflict not_started_yet)
    | submitted ↦ throw (conflict already_finished)
    | expired ↦ throw (conflict already_finished)
    | in_progress ↦
        if is_overdue attempt.deadline_at now
        then (do modify (finish fl attempt.id expired now); throw (conflict time_up))
        else pure tt
  ]

  unfoldable pub answer : Invitation → ℕ → String → String → String → Action (Store F R) (Unit {0})
  unfolding own_attempt assert_open is_choice save_answer
  answer invitation now attempt_id question_id option_id = do
    attempt ← own_attempt invitation attempt_id
    assert_open now attempt
    throw_if (not (is_choice attempt.snapshot question_id option_id))
        (bad_request (not_an_option ∷ []))
    modify (save_answer attempt_id question_id option_id)

  unfoldable pub submit_attempt : ℕ → Attempt F → Action (Store F R) (Unit {0})
  unfolding finish final_status
  submit_attempt now attempt = elim attempt.status [
    | not_started ↦ throw (conflict not_started_yet)
    | in_progress ↦ modify (finish fl attempt.id (final_status attempt.deadline_at now) now)
    | submitted ↦ pure tt
    | expired ↦ pure tt
  ]

  unfoldable pub submit : Invitation → ℕ → String → Action (Store F R) AttemptStatus
  unfolding own_attempt submit_attempt reread
  submit invitation now attempt_id = do
    attempt ← own_attempt invitation attempt_id
    submit_attempt now attempt
    final ← reread attempt.id
    pure final.status

  unfoldable pub overview : Invitation → ℕ → Action (Store F R) TakeOverview
  unfolding finalize_overdue overview_of opened_by
  overview invitation now = do
    modify (finalize_overdue fl (some invitation.id) now)
    seen ← gets (overview_of invitation now)
    modify (opened_by invitation now)
    pure seen

module _ (fl : Float) (rand : Random) where
  open fl use {F}
  open rand use {State}

  unfoldable pub start : Invitation → ℕ → String → Action (Store F State) TakeAttempt
  unfolding finalize_overdue own_attempt start_attempt view
  start invitation now attempt_id = do
    modify (finalize_overdue fl (some invitation.id) now)
    attempt ← own_attempt invitation attempt_id
    attempt ← start_attempt rand invitation now attempt
    answers ← gets (λ s. saved_answers attempt.id s.answers)
    view rand now attempt answers
