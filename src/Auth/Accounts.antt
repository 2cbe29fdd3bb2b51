-- ===== src/Auth/Accounts.antt =====
-- auth.service.ts: sign-in, password changes and password resets. The logger is left out: an error of a
-- mail that is sent in the background is written to the log and changes nothing.
use tmx_assessment.Prelude.{
  ℕ, String, Bool, false, not, Option, none, some, [], ◌∷◌, ◌++◌, if◌then◌else◌,
}
use tmx_assessment.Prelude.Text.{◌===◌}
use tmx_assessment.Http.{
  ok, err, bad_request, unauthorized, forbidden, internal, Action, pure, found_or, modify, throw_if,
  ◌>>=◌, ◌>>◌,
}
use tmx_assessment.Take.Store.{update_many}
use tmx_assessment.Auth.Store.{
  User, RequestMeta, Mail, password_reset_mail, password_changed_mail, Platform, Db, password_reset,
  transaction, find_user, find_email, is_active, is_deactivated,
}
use tmx_assessment.Auth.Tokens.{issue, consume, invalid_link}
use tmx_assessment.Auth.Sessions.{
  IssuedSession, create_session, revoke_all_for_user, delete_expired_for_user,
}

abbrev pub invalid_credentials : String
invalid_credentials = "Invalid email or password."

abbrev pub account_deactivated : String
account_deactivated = "This account has been deactivated."

abbrev pub wrong_password : String
wrong_password = "Current password is incorrect."

abbrev pub same_password : String
same_password = "Choose a password that is different from your current one."

-- PASSWORD_RESET_TTL_MS, and the same in minutes
abbrev pub password_reset_ttl : ℕ
password_reset_ttl = 3_600_000

abbrev pub password_reset_minutes : ℕ
password_reset_minutes = 60

pub record SignedIn : Type 0 where
  pub user : User
  pub session : IssuedSession

-- `update` of the row with the id
abbrev pub update_user : {Source : Type 0} → String → (User → User) → Db Source → Db Source
update_user id change db = record db { users = update_many (λ u. u.id === id) change db.users }

module _ (p : Platform) where
  open p use {Source, hash_password, verify, link, accepts_mail}

  -- The hash of a new password
  unfoldable pub new_hash : String → Action (Db Source) String
  new_hash password db =
      let (hash, source) = hash_password db.source password in
      (ok hash, record db { source = source })

  -- Sends a mail, unless the mail server refuses it.
  unfoldable pub send_quietly : Mail → Db Source → Db Source
  send_quietly mail db =
      if accepts_mail mail then record db { outbox = db.outbox ++ mail ∷ [] } else db

  -- Whether the password is the account's. An account without one, or that is not there, has none.
  unfoldable pub has_password : String → Option String → Bool
  has_password password none = false
  has_password password (some hash) = verify hash password

  -- `update({ where: { id } })`, which throws when no row has the id
  unfoldable pub updated_user : String → (User → User) → Action (Db Source) User
  updated_user id change db =
      let db' : Db Source = update_user id change db in
      found_or internal (find_user id db'.users) db'

  unfoldable pub sign_in : ℕ → User → RequestMeta → ℕ → Action (Db Source) SignedIn
  unfolding delete_expired_for_user create_session updated_user
  sign_in idle_ttl user meta now = do
    modify (delete_expired_for_user user.id now)
    session ← create_session p idle_ttl user.id meta now
    user ← updated_user user.id (λ u. record u { last_login_at = some now })
    pure (record { user = user; session = session })

  -- The account's state is only told to someone who knows the password.
  unfoldable pub login : ℕ → String → String → RequestMeta → ℕ → Action (Db Source) SignedIn
  unfolding has_password sign_in
  login idle_ttl email password meta now db = elim (find_email email db.users) [
    | none ↦ (err (unauthorized invalid_credentials), db)
    | some user ↦
        if not (has_password password user.password_hash)
        then (err (unauthorized invalid_credentials), db)
        else if is_deactivated user.status
        then (err (forbidden account_deactivated), db)
        else sign_in idle_ttl user meta now db
  ]

  abbrev pub with_password : String → ℕ → User → User
  with_password hash now u = record u { password_hash = some hash; password_changed_at = some now }

  unfoldable pub store_password : String → String → String → ℕ → Action (Db Source) User
  unfolding updated_user revoke_all_for_user
  store_password user_id kept_session hash now = do
    user ← updated_user user_id (with_password hash now)
    modify (revoke_all_for_user user_id (some kept_session))
    pure user

  -- Keeps the current session and signs out every other one.
  unfoldable pub change_password :
      (user_id session_id current_password new_password : String)
      → ℕ
      → Action (Db Source) (Unit {0})
  unfolding has_password new_hash store_password transaction send_quietly
  change_password user_id session_id current_password new_password now = do
    user ← (λ db. found_or internal (find_user user_id db.users) db)
    throw_if (not (has_password current_password user.password_hash))
        (bad_request (wrong_password ∷ []))
    throw_if (new_password === current_password) (bad_request (same_password ∷ []))
    hash ← new_hash new_password
    transaction (store_password user_id session_id hash now)
    modify (send_quietly (password_changed_mail user.email user.name))

  unfoldable pub reset_account : String → String → ℕ → Action (Db Source) User
  unfolding consume updated_user revoke_all_for_user
  reset_account token hash now = do
    owner ← consume p token password_reset now
    throw_if (not (is_active owner.status)) (bad_request (invalid_link ∷ []))
    modify (revoke_all_for_user owner.id none)
    updated_user owner.id (with_password hash now)

  -- Sets a new password from an emailed link and signs out every session.
  unfoldable pub reset_password : (token new_password : String) → ℕ → Action (Db Source) (Unit {0})
  unfolding new_hash reset_account transaction send_quietly
  reset_password token new_password now = do
    hash ← new_hash new_password
    user ← transaction (reset_account token hash now)
    modify (send_quietly (password_changed_mail user.email user.name))

  unfoldable pub send_reset : User → ℕ → Action (Db Source) (Unit {0})
  unfolding issue send_quietly
  send_reset user now = do
    issued ← issue p user.id password_reset password_reset_ttl now
    modify (
        send_quietly (
          password_reset_mail user.email user.name (link "/reset-password" issued.token)
            password_reset_minutes))

  -- `sendPasswordReset`, which runs in the background: nobody sees how it ends.
  unfoldable pub request_password_reset : String → ℕ → Action (Db Source) (Unit {0})
  unfolding send_reset
  request_password_reset email now db = elim (find_email email db.users) [
    | none ↦ (ok tt, db)
    | some user ↦ if is_active user.status then send_reset user now db else (ok tt, db)
  ]
