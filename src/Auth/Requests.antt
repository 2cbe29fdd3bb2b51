-- ===== src/Auth/Requests.antt =====
-- What reaches the staff accounts from outside: the methods of auth.service.ts and invitations.service.ts,
-- the session guard and the sign-out of auth.controller.ts, as one function on the state, and the states
-- that any sequence of them leads to.
use tmx_assessment.Prelude.{ℕ, ◌≤◌, String, Option, List, [], count_if}
use tmx_assessment.Prelude.Text.{◌===◌}
use tmx_assessment.Auth.Store.{User, Session, AuthToken, Mail, RequestMeta, Platform, Db}
use tmx_assessment.Auth.Sessions.{validate, revoke_by_token}
use tmx_assessment.Auth.Accounts.{login, change_password, reset_password, request_password_reset}
use tmx_assessment.Auth.Invites.{InvitationInput, Inviter, invite, accept}

pub data StaffRequest : Type 0 where
  to_log_in : (email password : String) → RequestMeta → ℕ → StaffRequest
  to_change_password :
      (user_id session_id current_password new_password : String) → ℕ → StaffRequest
  to_ask_reset : (email : String) → ℕ → StaffRequest
  to_reset_password : (token new_password : String) → ℕ → StaffRequest
  to_invite : InvitationInput → Option Inviter → ℕ → StaffRequest
  to_accept : (token password : String) → Option String → RequestMeta → ℕ → StaffRequest
  to_validate : (secret : String) → ℕ → StaffRequest
  to_log_out : (secret : String) → StaffRequest

-- The primary key of the sessions
abbrev pub IsKeyed : List Session → Type 0
IsKeyed sessions = (id : String) → count_if (λ s. s.id === id) sessions ≤ 1

module _ (p : Platform) (idle_ttl : ℕ) where
  open p use {Source}

  unfoldable pub handle_staff : StaffRequest → Db Source → Db Source
  unfolding login change_password request_password_reset reset_password invite accept validate
      revoke_by_token
  handle_staff (to_log_in email password meta now) db =
      (login p idle_ttl email password meta now db).1
  handle_staff (to_change_password user_id session_id current new now) db =
      (change_password p user_id session_id current new now db).1
  handle_staff (to_ask_reset email now) db = (request_password_reset p email now db).1
  handle_staff (to_reset_password token new now) db = (reset_password p token new now db).1
  handle_staff (to_invite input inviter now) db = (invite p input inviter now db).1
  handle_staff (to_accept token password name meta now) db =
      (accept p idle_ttl token password name meta now db).1
  handle_staff (to_validate secret now) db = (validate p idle_ttl secret now db).1
  handle_staff (to_log_out secret) db = revoke_by_token p secret db

  -- The states that requests lead to, from one without sessions. The database keeps the ids of sessions
  -- unique, so a request after which they were not is one that it refuses.
  pub data Reached : Db Source → Type 0 where
    no_sessions :
        (users : List User) (tokens : List AuthToken) (outbox : List Mail) (source : Source)
        → Reached (record {
          users = users;
          sessions = [];
          tokens = tokens;
          outbox = outbox;
          source = source;
        })
    after :
        {db : Db Source} (r : StaffRequest)
        → Reached db
        → IsKeyed (handle_staff r db).sessions
        → Reached (handle_staff r db)
