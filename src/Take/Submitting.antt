-- ===== src/Take/Submitting.antt =====
-- Proofs about `submit` of take.service.ts and `finish` of attempts.service.ts.
use tmx_assessment.Prelude.{
  ℕ, ◌+◌, ◌≤◌, ◌<◌, ◌⊎◌, ◌≡◌, ◌∙◌, refl, sym, arith, String, Bool, true, false, ap, Option, none,
  some, List, [], ◌∷◌, filter, if◌then◌else◌, inl, inr, Bool-cases,
}
use tmx_assessment.Prelude.Text.{◌===◌}
use tmx_assessment.Prelude.Dict.{get, set, from_entries, get-set}
use tmx_assessment.Schema.{AttemptStatus, in_progress, submitted, expired, is_in_progress}
use tmx_assessment.Canonical.Scoring.Groups.{Answers, ScoreResult}
use tmx_assessment.Canonical.Scoring.Attempt.{score_attempt}
use tmx_assessment.Float.{Float}
use tmx_assessment.Http.{ok}
use tmx_assessment.Take.Store.{
  Attempt, Answer, Invitation, is_answer, Store, Closing, closed, find_attempt, close_attempt,
}
use tmx_assessment.Take.Attempts.{is_overdue, entries_of, answers_of, closing, finish}
use tmx_assessment.Take.Service.{
  find_own, own_attempt, reread, final_status, submit_attempt, submit,
}
use tmx_assessment.Take.Status.{is_finished}

find_attempt-close_attempt :
    {F : Type 0} (id : String) (c : Closing F) (attempts : List (Attempt F)) (a : Attempt F)
    → find_attempt id attempts ≡ some a
    → is_in_progress a.status ≡ true
    → find_attempt id (close_attempt id c attempts) ≡ some (closed c a)
unfolding close_attempt
find_attempt-close_attempt id c [] a e p = cc
find_attempt-close_attempt id c (b ∷ bs) a e p =
    ground (arith, find_attempt-close_attempt id c bs a)

-- How an attempt that is submitted ends: without a deadline, in time, or more than 30 seconds late.
abbrev pub EndsAs : Option ℕ → ℕ → AttemptStatus → Type 0
EndsAs none now status = status ≡ submitted
EndsAs (some deadline) now status =
    ((now ≤ deadline + 30_000) × (status ≡ submitted))
    ⊎ ((deadline + 30_000 < now) × (status ≡ expired))

-- The option saved last for a question of an attempt
abbrev pub last_choice : (attempt_id question : String) → List Answer → Option String
last_choice attempt_id question [] = none
last_choice attempt_id question (x ∷ xs) = elim (last_choice attempt_id question xs) [
  | some option ↦ some option
  | none ↦ if is_answer attempt_id question x then some x.option_id else none
]

-- The attempt's result is this one.
abbrev pub IsResult : {F : Type 0} → ScoreResult F → Attempt F → Type 0
IsResult result r =
    (r.score ≡ some result.score)
    × (r.band_label ≡ result.band_label)
    × (r.correct_count ≡ result.correct_count)
    × (r.question_count ≡ some result.question_count)
    × (r.section_scores ≡ result.sections)
    × (r.flags ≡ result.flags)

final_status-EndsAs :
    (deadline : Option ℕ) (now : ℕ) → EndsAs deadline now (final_status deadline now)
unfolding final_status is_overdue
final_status-EndsAs none now = refl
final_status-EndsAs (some d) now = ground arith

or_last : Option String → Option String → Option String
or_last before none = before
or_last before (some option) = some option

none_last : (o : Option String) → or_last none o ≡ o
unfolding or_last
none_last none = refl
none_last (some option) = refl

set_last :
    (test : Bool) (option : String) (before last : Option String)
    → or_last (if test then some option else before) last
      ≡ or_last before (or_last (if test then some option else none) last)
unfolding or_last
set_last true option before none = refl
set_last true option before (some o) = refl
set_last false option before none = refl
set_last false option before (some o) = refl

last_step :
    (attempt_id question : String) (x : Answer) (xs : List Answer)
    → last_choice attempt_id question (x ∷ xs)
      ≡ or_last
          (if is_answer attempt_id question x then some x.option_id else none)
          (last_choice attempt_id question xs)
unfolding or_last
last_step attempt_id question x xs = refl

get-entries :
    (attempt_id question : String) (m : Answers) (xs : List Answer)
    → get question (from_entries m (entries_of (filter (λ x. x.attempt_id === attempt_id) xs)))
      ≡ or_last (get question m) (last_choice attempt_id question xs)
unfolding from_entries or_last
get-entries attempt_id question m [] = refl
get-entries attempt_id question m (x ∷ xs) = elim (Bool-cases (x.attempt_id === attempt_id)) [
  | inl e ↦
      let same : is_answer attempt_id question x ≡ (x.question_id === question) = ground arith in
      rw (last_step attempt_id question x xs, same, e)
        (get-entries attempt_id question (set x.question_id x.option_id m) xs
          ∙ ap (λ o. or_last o (last_choice attempt_id question xs))
              (get-set x.question_id question x.option_id m)
          ∙ set_last (x.question_id === question) x.option_id (get question m)
              (last_choice attempt_id question xs))
  | inr e ↦
      let other : is_answer attempt_id question x ≡ false = ground arith in
      rw (last_step attempt_id question x xs, other, e)
        (get-entries attempt_id question m xs
          ∙ ap (or_last (get question m)) (sym (none_last (last_choice attempt_id question xs))))
]

answers_of-last_choice :
    (attempt_id question : String) (xs : List Answer)
    → get question (answers_of attempt_id xs) ≡ last_choice attempt_id question xs
unfolding answers_of or_last get
answers_of-last_choice attempt_id question xs =
    get-entries attempt_id question [] xs ∙ none_last (last_choice attempt_id question xs)

module _ (fl : Float) {R : Type 0} where
  open fl use {F}

  finish_running :
      (id : String) (status : AttemptStatus) (now : ℕ) (s : Store F R) (a : Attempt F)
      → find_attempt id s.attempts ≡ some a
      → is_in_progress a.status ≡ true
      → find_attempt id (finish fl id status now s).attempts
        ≡ some (closed (closing fl a s.answers status now) a)
  unfolding finish
  finish_running id status now s a e p =
      rw (finish, e, p)
        (find_attempt-close_attempt id (closing fl a s.answers status now) s.attempts a e p)

  -- Submitting a running attempt of the link gives back how it ended: expired if it has a deadline that is
  -- more than 30 seconds ago, and submitted otherwise. The attempt then has that status, ends now, and has
  -- the result that its own answers score against its snapshot, each question with the option that was
  -- saved for it in this attempt; the saved answers stay.
  pub submit_scores :
      (i : Invitation) (now : ℕ) (s : Store F R) (a : Attempt F)
      → find_own i a.id s ≡ some a
      → find_attempt a.id s.attempts ≡ some a
      → a.status ≡ in_progress
      → (status : AttemptStatus) × (chosen : Answers) × (r : Attempt F) × ((submit fl i now a.id
            s).0
          ≡ ok status)
        × EndsAs a.deadline_at now status
        × (find_attempt a.id (submit fl i now a.id s).1.attempts ≡ some r)
        × (r.status ≡ status)
        × (r.finished_at ≡ some now)
        × IsResult (score_attempt fl a.snapshot chosen) r
        × ((question : String) → get question chosen ≡ last_choice a.id question s.answers)
        × ((submit fl i now a.id s).1.answers ≡ s.answers)
  unfolding submit own_attempt submit_attempt reread closing finish
  submit_scores i now s a e f p =
      let status : AttemptStatus = final_status a.deadline_at now in
      let q : is_in_progress a.status ≡ true = rw p refl in
      let closed_row = finish_running a.id status now s a f q in
      (
        status,
        answers_of a.id s.answers,
        closed (closing fl a s.answers status now) a,
        ground (arith, closed_row),
        final_status-EndsAs a.deadline_at now,
        ground (arith, closed_row),
        refl,
        refl,
        (refl, refl, refl, refl, refl, refl),
        λ question. answers_of-last_choice a.id question s.answers,
        ground arith,
      )

  -- Submitting an attempt that is finished changes nothing, and gives its status back.
  pub submit_again :
      (i : Invitation) (now : ℕ) (s : Store F R) (a : Attempt F)
      → find_own i a.id s ≡ some a
      → find_attempt a.id s.attempts ≡ some a
      → is_finished a.status ≡ true
      → submit fl i now a.id s ≡ (ok a.status, s)
  unfolding submit own_attempt submit_attempt reread is_finished
  submit_again i now s a e f p = ground arith
