-- ===== src/Tests/Links.antt =====
-- The theorems on links and attempts, at the fixtures.
use tmx_assessment.Prelude.{
  ◌-◌, ◌≡◌, String, ◌↔◌, ◌⊎◌, refl, true, false, ◌&&◌, ltb, none, some, List, [], ◌∷◌, get_elem?,
  all, count_if, count_if-le-length, ◌+◌,
}
use tmx_assessment.Schema.{AttemptStatus, not_started, submitted, expired, is_not_started}
use tmx_assessment.Float.Fraction.{Fraction, fractions}
use tmx_assessment.Http.{ok}
use tmx_assessment.Canonical.Layout.Mulberry.{mulberry32}
use tmx_assessment.Take.Store.{find_attempt, Attempt}
use tmx_assessment.Take.Attempts.{finalize_overdue, deadline_grace, ended_before, is_overdue}
use tmx_assessment.Take.Service.{find_own, submit}
use tmx_assessment.Take.Guard.{is_token, still_open, is_running, attempts_of, can_activate}
use tmx_assessment.Take.Status.{
  is_finished, invitation_status, link_completed, LinkRow, count_links,
}
use tmx_assessment.Take.Traces.{
  Statements, Lives, Statements-Lives, finished_for_good, clock_set_once,
}
use tmx_assessment.Take.Requests.{
  Request, to_start, to_answer, to_submit, to_sweep, handle_all, handle_all-Statements,
}
use tmx_assessment.Prelude.Dict.{get}
use tmx_assessment.Canonical.Scoring.Groups.{Answers}
use tmx_assessment.Canonical.Scoring.Attempt.{score_attempt}
use tmx_assessment.Take.Submitting.{EndsAs, IsResult, last_choice, submit_scores, submit_again}
use tmx_assessment.Take.Links.{
  deadline_tests_agree, can_activate_iff, is_unrevoked, count_links_total, completed_iff,
}
use tmx_assessment.Take.Swept.{has_id, is_left, finalize_overdue_sweeps}
use tmx_assessment.Tests.Fixtures.{link, running, finished, running_store, finished_store}

abbrev requests : List Request
requests =
    to_start link 2000 "t1"
    ∷ to_answer link 3000 "t1" "q1" "o1"
    ∷ to_submit link 4000 "t1"
    ∷ to_sweep 9000
    ∷ []

handle_all-Statements_example :
    Statements running_store (handle_all fractions mulberry32 requests running_store)
handle_all-Statements_example = handle_all-Statements fractions mulberry32 requests running_store

Statements-Lives_example :
    Lives running_store.attempts (handle_all fractions mulberry32 requests running_store).attempts
Statements-Lives_example =
    Statements-Lives (handle_all-Statements fractions mulberry32 requests running_store)

finished_for_good_example :
    get_elem? (handle_all fractions mulberry32 requests finished_store).attempts 0 ≡ some finished
unfolding is_finished
finished_for_good_example =
    finished_for_good 0 finished
      (handle_all-Statements fractions mulberry32 requests finished_store) refl refl

clock_set_once_example :
    (b : Attempt Fraction) × (get_elem?
        (handle_all fractions mulberry32 requests running_store).attempts
        0
      ≡ some b)
    × (is_not_started b.status ≡ false)
    × (b.started_at ≡ some 1000)
    × (b.deadline_at ≡ some 901_000)
    × (b.layout ≡ none)
clock_set_once_example =
    clock_set_once 0 running (handle_all-Statements fractions mulberry32 requests running_store)
      refl refl

deadline_tests_example :
    (ended_before (940_000 - deadline_grace) (some 901_000) ≡ is_overdue (some 901_000) 940_000)
    × (still_open 940_000 (some 901_000) && is_overdue (some 901_000) 940_000 ≡ false)
deadline_tests_example = deadline_tests_agree (some 901_000) 940_000

can_activate_example :
    (can_activate (λ t. t) 9000 running_store "0123456789012345678901234567890123456789012"
      ≡ ok link)
    ↔ (is_token "0123456789012345678901234567890123456789012" ≡ true)
      × (link.revoked_at ≡ none)
      × ((ltb 9000 link.expires_at ≡ true)
          ⊎ (is_running 9000 (attempts_of link running_store.attempts) ≡ true))
can_activate_example =
    can_activate_iff (λ t. t) 9000 running_store "0123456789012345678901234567890123456789012" link
      refl

abbrev rows : List LinkRow
rows =
    record { revoked_at = none; expires_at = 5000; attempts = submitted ∷ [] }
    ∷ record { revoked_at = some 3; expires_at = 5000; attempts = not_started ∷ [] }
    ∷ record { revoked_at = none; expires_at = 5000; attempts = not_started ∷ [] }
    ∷ []

count_links_example :
    (count_links rows 9000).not_started
      + (count_links rows 9000).in_progress
      + (count_links rows 9000).completed
      + (count_links rows 9000).expired_invitations
    ≡ count_if is_unrevoked rows
count_links_example = count_links_total rows 9000

completed_example :
    (invitation_status none 5000 (submitted ∷ expired ∷ []) 9000 ≡ link_completed)
    ↔ (all is_finished (submitted ∷ expired ∷ []) ≡ true)
completed_example = completed_iff 5000 submitted (expired ∷ []) 9000

submit_scores_example :
    (status : AttemptStatus) × (chosen : Answers) × (r : Attempt Fraction) × ((submit fractions link
        2000 "t1" running_store).0
      ≡ ok status)
    × EndsAs (some 901_000) 2000 status
    × (find_attempt "t1" (submit fractions link 2000 "t1" running_store).1.attempts ≡ some r)
    × (r.status ≡ status)
    × (r.finished_at ≡ some 2000)
    × IsResult (score_attempt fractions running.snapshot chosen) r
    × ((question : String) → get question chosen ≡ last_choice "t1" question running_store.answers)
    × ((submit fractions link 2000 "t1" running_store).1.answers ≡ running_store.answers)
unfolding find_own
submit_scores_example = submit_scores fractions link 2000 running_store running refl refl refl

submit_again_example :
    submit fractions link 2000 "t1" finished_store ≡ (ok submitted, finished_store)
unfolding find_own is_finished
submit_again_example = submit_again fractions link 2000 finished_store finished refl refl refl

finalize_overdue_sweeps_example :
    count_if
      (is_left none 2_000_000)
      (finalize_overdue fractions none 2_000_000 running_store).attempts
    ≡ 0
finalize_overdue_sweeps_example =
    finalize_overdue_sweeps fractions none 2_000_000 running_store
      (λ i. count_if-le-length (has_id i) running_store.attempts)
