-- ===== src/Auth/Invites.antt =====
-- invitations.service.ts: staff accounts are by invitation. A unique email is checked by the database as
-- well; since a request runs at one instant here, the check that comes first is the one that answers.
use tmx_assessment.Prelude.{
  ℕ, String, Bool, false, not, Option, none, some, [], ◌∷◌, ◌++◌, if◌then◌else◌,
}
use mathlib.Core.Option
use tmx_assessment.Prelude.Text.{filled}
use tmx_assessment.Http.{
  ok, err, bad_request, conflict, unavailable, Action, pure, throw_if, ◌>>=◌, ◌>>◌,
}
use tmx_assessment.Auth.Store.{
  User, UserRole, member, invited, active, RequestMeta, Mail, invitation_mail, Platform, Db,
  invitation, transaction, find_email, is_invited,
}
use tmx_assessment.Auth.Tokens.{issue, consume, invalid_link}
use tmx_assessment.Auth.Sessions.{create_session}
use tmx_assessment.Auth.Accounts.{SignedIn, new_hash, updated_user}

-- INVITATION_TTL_MS, and the same in days
abbrev pub invitation_ttl : ℕ
invitation_ttl = 604_800_000

abbrev pub invitation_days : ℕ
invitation_days = 7

abbrev pub already_exists : String
already_exists = "A user with this email already exists."

abbrev pub mail_failed : String
mail_failed =
    "The invitation was saved, but the email could not be sent. Invite the same email again to retry."

pub record InvitationInput : Type 0 where
  pub email : String
  pub name : String
  pub role : Option UserRole

pub record Inviter : Type 0 where
  pub id : String
  pub name : String

pub record CreatedInvitation : Type 0 where
  pub user : User
  pub accept_url : String
  pub expires_at : ℕ

abbrev or_member : Option UserRole → UserRole
or_member none = member
or_member (some role) = role

abbrev with_details : InvitationInput → Option String → User → User
with_details input invited_by u = record u {
  name = input.name;
  role = or_member input.role;
  invited_by_id = invited_by;
}

abbrev new_user : String → InvitationInput → Option String → User
new_user id input invited_by = record {
  id = id;
  email = input.email;
  name = input.name;
  password_hash = none;
  role = or_member input.role;
  status = invited;
  invited_by_id = invited_by;
  password_changed_at = none;
  last_login_at = none;
}

-- The name of the account: the one that was given, unless it is empty.
abbrev given_name : Option String → User → String
given_name none u = u.name
given_name (some name) u = if filled name then name else u.name

abbrev pub accepted_user : String → Option String → ℕ → User → User
accepted_user hash name now u = record u {
  password_hash = some hash;
  password_changed_at = some now;
  last_login_at = some now;
  status = active;
  name = given_name name u;
}

module _ (p : Platform) where
  open p use {Source, id, link, accepts_mail}

  unfoldable pub saved_user :
      Option User → InvitationInput → Option String → Action (Db Source) User
  unfolding updated_user
  saved_user (some existing) input invited_by db =
      updated_user p existing.id (with_details input invited_by) db
  saved_user none input invited_by db =
      let (user_id, source) = id db.source in
      let user : User = new_user user_id input invited_by in
      (ok user, record db { users = db.users ++ user ∷ []; source = source })

  unfoldable pub save_invitation :
      Option User → InvitationInput → Option String → ℕ → Action (Db Source) CreatedInvitation
  unfolding saved_user issue
  save_invitation existing input invited_by now = do
    user ← saved_user existing input invited_by
    issued ← issue p user.id invitation invitation_ttl now
    pure (record {
      user = user;
      accept_url = link "/accept-invite" issued.token;
      expires_at = issued.expires_at;
    })

  -- Whether an account with the email stands in the way: one that was accepted, or deactivated.
  unfoldable pub is_taken : Option User → Bool
  is_taken none = false
  is_taken (some u) = not (is_invited u.status)

  unfoldable pub create_invitation :
      InvitationInput → Option String → ℕ → Action (Db Source) CreatedInvitation
  unfolding is_taken save_invitation transaction
  create_invitation input invited_by now db =
      if is_taken (find_email input.email db.users)
      then (err (conflict already_exists), db)
      else transaction (save_invitation (find_email input.email db.users) input invited_by now) db

  -- A mail that the server refuses throws.
  unfoldable pub send_invitation : CreatedInvitation → Option String → Action (Db Source) (Unit {0})
  send_invitation created invited_by db =
      let mail : Mail =
        invitation_mail created.user.email created.user.name invited_by created.accept_url
          invitation_days in
      if accepts_mail mail
      then (ok tt, record db { outbox = db.outbox ++ mail ∷ [] })
      else (err (unavailable mail_failed), db)

  -- Saves the invitation and emails it.
  unfoldable pub invite :
      InvitationInput → Option Inviter → ℕ → Action (Db Source) CreatedInvitation
  unfolding create_invitation send_invitation
  invite input invited_by now = do
    created ← create_invitation input (Option.map (λ i. i.id) invited_by) now
    send_invitation created (Option.map (λ i. i.name) invited_by)
    pure created

  unfoldable pub accept_account : String → String → Option String → ℕ → Action (Db Source) User
  unfolding consume updated_user
  accept_account token hash name now = do
    invitee ← consume p token invitation now
    throw_if (not (is_invited invitee.status)) (bad_request (invalid_link ∷ []))
    updated_user p invitee.id (accepted_user hash name now)

  -- Sets the invitee's password, activates the account and signs them in.
  unfoldable pub accept :
      (idle_ttl : ℕ) (token password : String) (name : Option String)
      → RequestMeta
      → ℕ
      → Action (Db Source) SignedIn
  unfolding new_hash accept_account transaction create_session
  accept idle_ttl token password name meta now = do
    hash ← new_hash p password
    user ← transaction (accept_account token hash name now)
    session ← create_session p idle_ttl user.id meta now
    pure (record { user = user; session = session })
