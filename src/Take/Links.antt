-- ===== src/Take/Links.antt =====
-- The guard of a candidate's link, the status of a link, and the tests of time that the guard, the sweep
-- and `isOverdue` each make in their own way.
use tmx_assessment.Prelude.{
  ℕ, ◌+◌, ◌-◌, ◌≡◌, ◌↔◌, arith, refl, String, Bool, true, false, ◌&&◌, ltb, Option, none, some,
  List, [], ◌∷◌, ◌⊎◌, find?, all, count_if, if◌then◌else◌,
}
use tmx_assessment.Prelude.Text.{◌===◌}
use tmx_assessment.Schema.{AttemptStatus}
use tmx_assessment.Http.{ok}
use tmx_assessment.Take.Store.{Invitation, Store}
use tmx_assessment.Take.Attempts.{deadline_grace, ended_before, is_overdue}
use tmx_assessment.Take.Guard.{
  is_token, still_open, is_running, attempts_of, admit, unrevoked, can_activate,
}
use tmx_assessment.Take.Status.{
  is_finished, invitation_status, link_completed, LinkRow, LinkCounts, no_links, count_link,
  count_links_from, count_links,
}

-- The sweep's query closes an attempt exactly when `isOverdue` holds of it, and the guard never takes an
-- attempt that is overdue for one that can still be answered.
pub deadline_tests_agree :
    (deadline : Option ℕ) (now : ℕ)
    → (ended_before (now - deadline_grace) deadline ≡ is_overdue deadline now)
      × (still_open now deadline && is_overdue deadline now ≡ false)
unfolding is_overdue still_open
deadline_tests_agree none now = (refl, refl)
deadline_tests_agree (some deadline) now = ground arith

module _ {F R : Type 0} where
  -- A token that belongs to a link opens it exactly when the token has the right shape, the link is not
  -- revoked, and it has not expired or one of its tests can still be answered.
  pub can_activate_iff :
      (hash_token : String → String) (now : ℕ) (s : Store F R) (token : String) (i : Invitation)
      → find? (λ j. j.token_hash === hash_token token) s.invitations ≡ some i
      → (can_activate hash_token now s token ≡ ok i)
        ↔ (is_token token ≡ true)
          × (i.revoked_at ≡ none)
          × ((ltb now i.expires_at ≡ true) ⊎ (is_running now (attempts_of i s.attempts) ≡ true))
  unfolding can_activate admit unrevoked
  can_activate_iff hash_token now s token i e = ground arith

abbrev pub is_unrevoked : LinkRow → Bool
is_unrevoked row = elim row.revoked_at [ none ↦ true | some time ↦ false ]

abbrev total : LinkCounts → ℕ
total c = c.not_started + c.in_progress + c.completed + c.expired_invitations

invitation_status_revoked :
    (row : LinkRow) (now : ℕ) (c : LinkCounts)
    → total (count_link (invitation_status row.revoked_at row.expires_at row.attempts now) c)
      ≡ (if is_unrevoked row then 1 else 0) + total c
unfolding invitation_status count_link
invitation_status_revoked row now c = ground arith

count_links_from_total :
    (c : LinkCounts) (rows : List LinkRow) (now : ℕ)
    → total (count_links_from c rows now) ≡ count_if is_unrevoked rows + total c
unfolding count_links_from
count_links_from_total c [] now = omega arith
count_links_from_total c (row ∷ rows) now = ground (
  arith,
  invitation_status_revoked row now c,
  count_links_from_total
      (count_link (invitation_status row.revoked_at row.expires_at row.attempts now) c) rows now,
)

-- The home page's four numbers add up to the links that are not revoked: each of those is counted once,
-- and a revoked one nowhere.
pub count_links_total :
    (rows : List LinkRow) (now : ℕ)
    → (count_links rows now).not_started
        + (count_links rows now).in_progress
        + (count_links rows now).completed
        + (count_links rows now).expired_invitations
      ≡ count_if is_unrevoked rows
unfolding count_links
count_links_total rows now = omega (arith, count_links_from_total no_links rows now)

-- A link that is not revoked and holds tests shows as completed exactly when each of them is submitted or
-- expired, whatever the time.
pub completed_iff :
    (expires_at : ℕ) (a : AttemptStatus) (attempts : List AttemptStatus) (now : ℕ)
    → (invitation_status none expires_at (a ∷ attempts) now ≡ link_completed)
      ↔ (all is_finished (a ∷ attempts) ≡ true)
unfolding invitation_status
completed_iff expires_at a attempts now = ground arith
