-- ===== src/Auth/Store.antt =====
-- The rows of users, sessions and tokens, the mail that was sent, and what the program takes from the
-- libraries it calls. An effect of a method is a change of this state.
use tmx_assessment.Prelude.{ℕ, ◌≡◌, String, Bool, true, false, Option, List, find?}
use tmx_assessment.Prelude.Text.{◌===◌}
use tmx_assessment.Http.{Result, ok, err, Action}

pub data UserRole : Type 0 where
  admin member : UserRole

pub data UserStatus : Type 0 where
  invited active deactivated : UserStatus

abbrev pub is_invited : UserStatus → Bool
is_invited invited = true
is_invited _ = false

abbrev pub is_active : UserStatus → Bool
is_active active = true
is_active _ = false

abbrev pub is_deactivated : UserStatus → Bool
is_deactivated deactivated = true
is_deactivated _ = false

pub data AuthTokenType : Type 0 where
  invitation password_reset : AuthTokenType

abbrev pub same_type : AuthTokenType → AuthTokenType → Bool
same_type invitation invitation = true
same_type password_reset password_reset = true
same_type _ _ = false

pub record User : Type 0 where
  pub id : String
  pub email : String
  pub name : String
  pub password_hash : Option String
  pub role : UserRole
  pub status : UserStatus
  pub invited_by_id : Option String
  pub password_changed_at : Option ℕ
  pub last_login_at : Option ℕ

pub record Session : Type 0 where
  pub id : String
  pub user_id : String
  pub token_hash : String
  pub expires_at : ℕ
  pub last_used_at : ℕ
  pub created_at : ℕ
  pub ip_address : Option String
  pub user_agent : Option String

pub record AuthToken : Type 0 where
  pub user_id : String
  pub type : AuthTokenType
  pub token_hash : String
  pub expires_at : ℕ
  pub used_at : Option ℕ

pub record RequestMeta : Type 0 where
  pub ip_address : Option String
  pub user_agent : Option String

pub data Mail : Type 0 where
  password_reset_mail : (email name url : String) (minutes : ℕ) → Mail
  password_changed_mail : (email name : String) → Mail
  invitation_mail :
      (email name : String) (invited_by : Option String) (url : String) (days : ℕ) → Mail

-- What the program takes from outside: random tokens and row ids, the hash of a token, password hashes
-- (which are salted, so they draw from the source too), links to the frontend, and whether the mail
-- server takes a message. A password verifies against a hash made of it.
pub record Platform : Type 1 where
  pub Source : Type 0
  pub token : Source → String × Source
  pub id : Source → String × Source
  pub hash_token : String → String
  pub hash_password : Source → String → String × Source
  pub verify : String → String → Bool
  pub link : (route token : String) → String
  pub accepts_mail : Mail → Bool
  pub verify-hash_password :
      (s : Source) (password : String) → verify (hash_password s password).0 password ≡ true

pub record Db (Source : Type 0) : Type 0 where
  pub users : List User
  pub sessions : List Session
  pub tokens : List AuthToken
  pub outbox : List Mail
  pub source : Source

-- `$transaction`: what a body wrote is undone when it throws.
unfoldable pub rolled_back : {S A : Type 0} → S → Result A × S → Result A × S
rolled_back s (ok a, t) = (ok a, t)
rolled_back s (err e, t) = (err e, s)

unfoldable pub transaction : {S A : Type 0} → Action S A → Action S A
unfolding rolled_back
transaction body s = rolled_back s (body s)

abbrev pub find_user : String → List User → Option User
find_user id users = find? (λ u. u.id === id) users

abbrev pub find_email : String → List User → Option User
find_email email users = find? (λ u. u.email === email) users
