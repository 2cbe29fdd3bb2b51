-- ===== src/Take/Status.antt =====
-- invitation.mapper.ts and dashboard.service.ts: the status of a whole link, and the numbers of the home
-- page. `assessments.constants.ts` names the statuses of a finished attempt.
use tmx_assessment.Prelude.{
  ℕ, suc, Bool, true, false, ◌&&◌, not, leb, Option, none, some, List, [], ◌∷◌, any, all,
  if◌then◌else◌,
}
use tmx_assessment.Schema.{
  AttemptStatus, not_started, in_progress, submitted, expired, is_in_progress, is_not_started,
}

-- FINISHED_STATUSES
unfoldable pub is_finished : AttemptStatus → Bool
is_finished not_started = false
is_finished in_progress = false
is_finished submitted = true
is_finished expired = true

pub data InvitationStatus : Type 0 where
  link_revoked : InvitationStatus
  link_completed : InvitationStatus
  link_expired : InvitationStatus
  link_in_progress : InvitationStatus
  link_not_started : InvitationStatus

abbrev pub is_empty {ℓ} : {A : Type ℓ} → List A → Bool
is_empty [] = true
is_empty (x ∷ xs) = false

unfoldable pub invitation_status : Option ℕ → ℕ → List AttemptStatus → ℕ → InvitationStatus
unfolding is_finished
invitation_status (some time) expires_at attempts now = link_revoked
invitation_status none expires_at attempts now =
    if not (is_empty attempts) && all is_finished attempts
    then link_completed
    else if leb expires_at now && not (any is_in_progress attempts)
    then link_expired
    else if any (λ a. not (is_not_started a)) attempts
    then link_in_progress
    else link_not_started

pub record LinkRow : Type 0 where
  pub revoked_at : Option ℕ
  pub expires_at : ℕ
  pub attempts : List AttemptStatus

pub record LinkCounts : Type 0 where
  pub not_started : ℕ
  pub in_progress : ℕ
  pub completed : ℕ
  pub expired_invitations : ℕ

abbrev pub no_links : LinkCounts
no_links = record { not_started = 0; in_progress = 0; completed = 0; expired_invitations = 0 }

unfoldable pub count_link : InvitationStatus → LinkCounts → LinkCounts
count_link link_revoked c = c
count_link link_completed c = record c { completed = suc c.completed }
count_link link_expired c = record c { expired_invitations = suc c.expired_invitations }
count_link link_in_progress c = record c { in_progress = suc c.in_progress }
count_link link_not_started c = record c { not_started = suc c.not_started }

unfoldable pub count_links_from : LinkCounts → List LinkRow → ℕ → LinkCounts
unfolding count_link invitation_status
count_links_from counts [] now = counts
count_links_from counts (row ∷ rows) now =
    count_links_from
      (count_link (invitation_status row.revoked_at row.expires_at row.attempts now) counts) rows
      now

unfoldable pub count_links : List LinkRow → ℕ → LinkCounts
unfolding count_links_from
count_links rows now = count_links_from no_links rows now
