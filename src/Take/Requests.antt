-- ===== src/Take/Requests.antt =====
-- Every request of a candidate, and the overdue sweep, as a function on the store.
use tmx_assessment.Prelude.{ℕ, String, none, List, [], ◌∷◌}
use tmx_assessment.Float.{Float}
use tmx_assessment.Canonical.Layout.{Random}
use tmx_assessment.Take.Store.{Invitation, Store}
use tmx_assessment.Take.Attempts.{finalize_overdue}
use tmx_assessment.Take.Service.{answer, submit, overview, start}
use tmx_assessment.Take.Traces.{Statements, none_sent}
use tmx_assessment.Take.Sent.{
  both, sweep-Statements, overview-IsSent, start-IsSent, submit-IsSent, answer-IsSent,
}

-- What can reach the store of attempts: a candidate's requests, or the sweep that staff views run first.
pub data Request : Type 0 where
  to_overview : Invitation → ℕ → Request
  to_start : Invitation → ℕ → String → Request
  to_answer : Invitation → ℕ → String → String → String → Request
  to_submit : Invitation → ℕ → String → Request
  to_sweep : ℕ → Request

module _ (fl : Float) (rand : Random) where
  open fl use {F}
  open rand use {State}

  unfoldable pub handle : Request → Store F State → Store F State
  unfolding overview start answer submit finalize_overdue
  handle (to_overview i now) s = (overview fl i now s).1
  handle (to_start i now id) s = (start fl rand i now id s).1
  handle (to_answer i now id q o) s = (answer fl i now id q o s).1
  handle (to_submit i now id) s = (submit fl i now id s).1
  handle (to_sweep now) s = finalize_overdue fl none now s

  unfoldable pub handle_all : List Request → Store F State → Store F State
  unfolding handle
  handle_all [] s = s
  handle_all (r ∷ rs) s = handle_all rs (handle r s)

  handle-Statements : (r : Request) → (s : Store F State) → Statements s (handle r s)
  unfolding handle
  handle-Statements (to_overview i now) = overview-IsSent fl i now
  handle-Statements (to_start i now id) = start-IsSent fl rand i now id
  handle-Statements (to_answer i now id q o) = answer-IsSent fl i now id q o
  handle-Statements (to_submit i now id) = submit-IsSent fl i now id
  handle-Statements (to_sweep now) = sweep-Statements fl none now

  -- Any requests, at any times, write to the store only by statements that keep to the life cycle.
  pub handle_all-Statements :
      (rs : List Request) (s : Store F State) → Statements s (handle_all rs s)
  unfolding handle_all
  handle_all-Statements [] s = none_sent
  handle_all-Statements (r ∷ rs) s =
      both (handle-Statements r s) (handle_all-Statements rs (handle r s))
