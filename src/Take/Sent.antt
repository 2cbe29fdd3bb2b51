-- ===== src/Take/Sent.antt =====
-- Each method of the candidate's service, and the statements of Take/Traces that it sends.
use tmx_assessment.Prelude.{
  ℕ, ◌≡◌, refl, String, Bool, true, false, Option, none, some, List, [], ◌∷◌, ◌⊎◌, inl, inr,
  Bool-cases, Option-cases, leb,
}
use tmx_assessment.Schema.{
  AttemptStatus, not_started, in_progress, submitted, expired, is_in_progress,
}
use tmx_assessment.Float.{Float}
use tmx_assessment.Http.{
  HttpError, Action, gets, found_or, throw_if, Result, ok, err, continue, ◌>>=◌,
}
use tmx_assessment.Canonical.Layout.{Random}
use tmx_assessment.Take.Store.{Attempt, Invitation, Store, find_attempt}
use tmx_assessment.Take.Attempts.{
  is_overdue, closing as closing_of, finish, finish_all, finalize_overdue, overdue_ids,
}
use tmx_assessment.Take.Service.{
  find_own, saved_answers, own_attempt, reread, save_answer, opened_by, open_now, layout_of, view,
  start_clock, start_attempt, read_layout, assert_open, answer, final_status, submit_attempt,
  submit, overview, start,
}
use tmx_assessment.Take.Status.{is_finished}
use tmx_assessment.Take.Traces.{
  Statement, Statements, none_sent, sent, opening, closing, saving, visiting, drawing,
}

module _ {F R : Type 0} where
  pub both : {s t u : Store F R} → Statements s t → Statements t u → Statements s u
  both h none_sent = h
  both h (sent r w) = sent (both h r) w

  one : {s t : Store F R} → Statement s t → Statements s t
  one w = sent none_sent w

status-cases :
    (status : AttemptStatus)
    → (status ≡ not_started) ⊎ (status ≡ in_progress) ⊎ (status ≡ submitted) ⊎ (status ≡ expired)
status-cases not_started = inl refl
status-cases in_progress = inr (inl refl)
status-cases submitted = inr (inr (inl refl))
status-cases expired = inr (inr (inr refl))

-- A method that sends statements, whatever state it starts from.
abbrev pub IsSent : {F R A : Type 0} → Action (Store F R) A → Type 0
IsSent {F = F} {R = R} m = (s : Store F R) → Statements s (m s).1

module _ {F R A B : Type 0} where
  continue-IsSent :
      (k : A → Action (Store F R) B) {s : Store F R} (r : Result A × Store F R)
      → Statements s r.1
      → ((a : A) → IsSent (k a))
      → Statements s (continue k r).1
  continue-IsSent k (ok a, t) h g = both h (g a t)
  continue-IsSent k (err e, t) h g = h

  bind-IsSent :
      (m : Action (Store F R) A) (k : A → Action (Store F R) B)
      → IsSent m
      → ((a : A) → IsSent (k a))
      → IsSent (m >>= k)
  bind-IsSent m k h g s = continue-IsSent k (m s) (h s) g

module _ {F R : Type 0} where
  found_or-IsSent :
      {A : Type 0} (e : HttpError) (o : Option A) → IsSent {F = F} {R = R} (found_or e o)
  found_or-IsSent e none s = none_sent
  found_or-IsSent e (some a) s = none_sent

  own_attempt-IsSent : (i : Invitation) (id : String) → IsSent {F = F} {R = R} (own_attempt i id)
  unfolding own_attempt
  own_attempt-IsSent i id s = found_or-IsSent _ (find_own i id s) s

  reread-IsSent : (id : String) → IsSent {F = F} {R = R} (reread id)
  unfolding reread
  reread-IsSent id s = found_or-IsSent _ (find_attempt id s.attempts) s

  throw_if-IsSent : (b : Bool) (e : HttpError) → IsSent {F = F} {R = R} (throw_if b e)
  throw_if-IsSent true e s = none_sent
  throw_if-IsSent false e s = none_sent

final_status-finished :
    (deadline : Option ℕ) (now : ℕ) → is_finished (final_status deadline now) ≡ true
unfolding final_status is_finished
final_status-finished deadline now = elim (Bool-cases (is_overdue deadline now)) [
  | inl o ↦ rw (final_status, o) refl
  | inr o ↦ rw (final_status, o) refl
]

module _ (fl : Float) {R : Type 0} where
  open fl use {F}

  finish-Statements :
      (id : String) (status : AttemptStatus) (now : ℕ) (s : Store F R)
      → is_finished status ≡ true
      → Statements s (finish fl id status now s)
  unfolding finish
  finish-Statements id status now s f = elim (Option-cases (find_attempt id s.attempts)) [
    | inl e ↦ rw (e, finish) none_sent
    | inr (a, e) ↦ elim (Bool-cases (is_in_progress a.status)) [
      | inl p ↦ rw (e, p, finish) (one (closing id (closing_of fl a s.answers status now) f))
      | inr p ↦ rw (e, p, finish) none_sent
    ]
  ]

  finish_all-Statements :
      (ids : List String) (now : ℕ) (s : Store F R) → Statements s (finish_all fl ids now s)
  unfolding finish_all is_finished
  finish_all-Statements [] now s = none_sent
  finish_all-Statements (id ∷ ids) now s =
      both (finish-Statements id expired now s refl) (finish_all-Statements ids now _)

  pub sweep-Statements :
      (invitation : Option String) (now : ℕ) (s : Store F R)
      → Statements s (finalize_overdue fl invitation now s)
  unfolding finalize_overdue
  sweep-Statements invitation now s =
      finish_all-Statements (overdue_ids invitation now s.attempts) now s

  assert_open-IsSent : (now : ℕ) (a : Attempt F) → IsSent {F = F} {R = R} (assert_open fl now a)
  unfolding assert_open is_finished
  assert_open-IsSent now a s = elim (status-cases a.status) [
    | inl e ↦ rw (e, assert_open) none_sent
    | inr (inl e) ↦ elim (Bool-cases (is_overdue a.deadline_at now)) [
      | inl o ↦ rw (e, assert_open, o) (finish-Statements a.id expired now s refl)
      | inr o ↦ rw (e, assert_open, o) none_sent
    ]
    | inr (inr (inl e)) ↦ rw (e, assert_open) none_sent
    | inr (inr (inr e)) ↦ rw (e, assert_open) none_sent
  ]

  pub answer-IsSent :
      (i : Invitation) (now : ℕ) (id q o : String) (s : Store F R)
      → Statements s (answer fl i now id q o s).1
  unfolding answer save_answer
  answer-IsSent i now id q o = bind-IsSent (own_attempt i id) _ (own_attempt-IsSent i id) λ a.
      bind-IsSent (assert_open fl now a) _ (assert_open-IsSent now a)
        λ _. bind-IsSent (throw_if _ _) _ (throw_if-IsSent _ _) λ _ s. one (saving _)

  submit_attempt-IsSent :
      (now : ℕ) (a : Attempt F) → IsSent {F = F} {R = R} (submit_attempt fl now a)
  unfolding submit_attempt
  submit_attempt-IsSent now a s = elim (status-cases a.status) [
    | inl e ↦ rw (e, submit_attempt) none_sent
    | inr (inl e) ↦
        rw (e, submit_attempt)
          (finish-Statements a.id _ now s (final_status-finished a.deadline_at now))
    | inr (inr (inl e)) ↦ rw (e, submit_attempt) none_sent
    | inr (inr (inr e)) ↦ rw (e, submit_attempt) none_sent
  ]

  pub submit-IsSent :
      (i : Invitation) (now : ℕ) (id : String) → IsSent {F = F} {R = R} (submit fl i now id)
  unfolding submit
  submit-IsSent i now id = bind-IsSent (own_attempt i id) _ (own_attempt-IsSent i id) λ a.
      bind-IsSent (submit_attempt fl now a) _ (submit_attempt-IsSent now a)
        λ _. bind-IsSent (reread a.id) _ (reread-IsSent a.id) λ _ s. none_sent

  pub overview-IsSent : (i : Invitation) (now : ℕ) → IsSent {F = F} {R = R} (overview fl i now)
  unfolding overview opened_by
  overview-IsSent i now s = sent (sweep-Statements (some i.id) now s) (visiting _)

module _ (rand : Random) {F : Type 0} where
  open rand use {State}

  start_clock-IsSent :
      (i : Invitation) (now : ℕ) (a : Attempt F)
      → IsSent {F = F} {R = State} (start_clock rand i now a)
  unfolding start_clock open_now
  start_clock-IsSent i now a s = elim (Bool-cases (leb i.expires_at now)) [
    | inl e ↦ rw (e, start_clock) none_sent
    | inr e ↦
        rw (e, start_clock)
          (both (sent (one (opening a.id now _ _)) (drawing _)) (reread-IsSent a.id _))
  ]

  start_attempt-IsSent :
      (i : Invitation) (now : ℕ) (a : Attempt F)
      → IsSent {F = F} {R = State} (start_attempt rand i now a)
  unfolding start_attempt
  start_attempt-IsSent i now a s = elim (status-cases a.status) [
    | inl e ↦ rw (e, start_attempt) (start_clock-IsSent i now a s)
    | inr (inl e) ↦ rw (e, start_attempt) none_sent
    | inr (inr (inl e)) ↦ rw (e, start_attempt) none_sent
    | inr (inr (inr e)) ↦ rw (e, start_attempt) none_sent
  ]

  layout_of-IsSent : (a : Attempt F) → IsSent {F = F} {R = State} (layout_of rand a)
  unfolding layout_of
  layout_of-IsSent a s = elim (Option-cases (read_layout a.layout)) [
    | inl e ↦ rw (e, layout_of) (one (drawing _))
    | inr (layout, e) ↦ rw (e, layout_of) none_sent
  ]

  view-IsSent :
      (now : ℕ) (a : Attempt F) (answers : List (String × String))
      → IsSent {F = F} {R = State} (view rand now a answers)
  unfolding view
  view-IsSent now a answers = bind-IsSent (layout_of rand a) _ (layout_of-IsSent a) λ _ s. none_sent

module _ (fl : Float) (rand : Random) where
  open fl use {F}
  open rand use {State}

  pub start-IsSent :
      (i : Invitation) (now : ℕ) (id : String) → IsSent {F = F} {R = State} (start fl rand i now id)
  unfolding start
  start-IsSent i now id s = both (sweep-Statements fl (some i.id) now s) (
      bind-IsSent (own_attempt i id) _ (own_attempt-IsSent i id)
        (λ a. bind-IsSent (start_attempt rand i now a) _ (start_attempt-IsSent rand i now a) λ b.
          bind-IsSent (gets (λ s. saved_answers b.id s.answers)) (view rand now b) (λ t. none_sent)
            λ answers. view-IsSent rand now b answers)
        _)
