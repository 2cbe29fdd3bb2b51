-- ===== src/Tests/Staff.antt =====
-- The theorems on staff accounts, with one account, one session and one token. The platform's functions
-- are simple ones that meet its law.
use tmx_assessment.Prelude.{
  count_if, count_if-le-length, ℕ, suc, ◌+◌, ◌≡◌, ◌≤◌, ◌<◌, refl, arith, not, ◌||◌, filter, true,
  false, none, some, [], ◌∷◌,
}
use tmx_assessment.Prelude.Text.{◌===◌, eq_refl}
use tmx_assessment.Http.{ok, err, bad_request}
use tmx_assessment.Auth.Store.{
  User, Session, AuthToken, RequestMeta, Platform, Db, admin, active, password_reset, find_email,
  find_user, is_active, is_deactivated, transaction, rolled_back,
}
use tmx_assessment.Auth.Tokens.{
  is_token_of, issue, consume, invalid_link, mark_used, is_usable, owner_of,
}
use tmx_assessment.Auth.Sessions.{
  ValidSession, session_absolute_ttl, idle_expiry, validate, validate_found, create_session,
  delete_expired_for_user,
}
use tmx_assessment.Auth.Accounts.{
  SignedIn, has_password, login, sign_in, reset_password, change_password, updated_user, new_hash,
  reset_account, store_password,
}
use tmx_assessment.Auth.Guards.{
  AuthUser, user_of, has_role, check_role, with_role, session_user, reach, reach-guarded,
  signed_in as signed,
}
use tmx_assessment.Auth.SingleUse.{consume_once, issue_cancels}
use tmx_assessment.Auth.Requests.{to_log_in, handle_staff, Reached, no_sessions, after}
use tmx_assessment.Auth.Capped.{validate-IsLive}
use tmx_assessment.Auth.Passwords.{login-guarded, reset_password-undone, change_password-kept}

abbrev plain : Platform
plain = record {
  Source = ℕ;
  token = λ s. ("token", suc s);
  id = λ s. ("id", suc s);
  hash_token = λ t. t;
  hash_password = λ s password. (password, suc s);
  verify = λ hash password. hash === password;
  link = λ route token. token;
  accepts_mail = λ mail. true;
  verify-hash_password = λ s password. eq_refl password;
}

abbrev ada : User
ada = record {
  id = "u1";
  email = "ada@example.com";
  name = "Ada";
  password_hash = some "secret";
  role = admin;
  status = active;
  invited_by_id = none;
  password_changed_at = none;
  last_login_at = none;
}

abbrev session : Session
session = record {
  id = "s1";
  user_id = "u1";
  token_hash = "cookie";
  expires_at = 50_000;
  last_used_at = 1000;
  created_at = 1000;
  ip_address = none;
  user_agent = none;
}

abbrev reset_token : AuthToken
reset_token = record {
  user_id = "u1";
  type = password_reset;
  token_hash = "mail";
  expires_at = 9000;
  used_at = none;
}

abbrev staff : Db ℕ
staff = record {
  users = ada ∷ [];
  sessions = session ∷ [];
  tokens = reset_token ∷ [];
  outbox = [];
  source = 0;
}

abbrev after_use : Db ℕ
after_use = record staff { tokens = record reset_token { used_at = some 2000 } ∷ [] }

consume_once_example :
    (consume plain "mail" password_reset 3000 after_use).0 ≡ err (bad_request (invalid_link ∷ []))
unfolding consume mark_used is_usable owner_of
consume_once_example =
    consume_once plain "mail" password_reset 2000 3000 staff after_use ada refl (omega arith)

abbrev meta : RequestMeta
meta = record { ip_address = none; user_agent = none }

abbrev empty_office : Db ℕ
empty_office = record staff { sessions = [] }

abbrev logged_in : Db ℕ
logged_in =
    handle_staff plain 86_400_000 (to_log_in "ada@example.com" "secret" meta 1000) empty_office

logged_in-Reached : Reached plain 86_400_000 logged_in
unfolding handle_staff login has_password sign_in updated_user create_session idle_expiry
    delete_expired_for_user
logged_in-Reached =
    after (to_log_in "ada@example.com" "secret" meta 1000)
      (no_sessions (ada ∷ []) (reset_token ∷ []) [] 0)
      (λ id. count_if-le-length (λ s. s.id === id) logged_in.sessions)

abbrev signed_in : ValidSession
signed_in = record { session = session; user = ada }

abbrev first_session : ValidSession
first_session = record {
  session = record session { id = "id"; token_hash = "token"; expires_at = 86_401_000 };
  user = record ada { last_login_at = some 1000 };
}

validate-IsLive_example :
    (2000 < first_session.session.expires_at)
    × (first_session.session.expires_at ≤ first_session.session.created_at + session_absolute_ttl)
    × (is_active first_session.user.status ≡ true)
unfolding handle_staff login has_password sign_in updated_user create_session idle_expiry
    delete_expired_for_user validate validate_found
validate-IsLive_example =
    validate-IsLive plain 86_400_000 "token" 2000 logged_in first_session logged_in-Reached
      (omega arith) refl

abbrev welcome : SignedIn
welcome = record {
  user = record ada { last_login_at = some 2000 };
  session = record { token = "token"; absolute_expires_at = 2000 + session_absolute_ttl };
}

login-guarded_example :
    (u : User) × (find_email "ada@example.com" staff.users ≡ some u)
    × (has_password plain "secret" u.password_hash ≡ true)
    × (is_deactivated u.status ≡ false)
unfolding login has_password sign_in updated_user create_session delete_expired_for_user
login-guarded_example =
    login-guarded plain 86_400_000 "ada@example.com" "secret" meta 2000 staff welcome refl

reset_password-undone_example :
    ((reset_password plain "other" "new" 2000 staff).1.users ≡ staff.users)
    × ((reset_password plain "other" "new" 2000 staff).1.sessions ≡ staff.sessions)
    × ((reset_password plain "other" "new" 2000 staff).1.tokens ≡ staff.tokens)
    × ((reset_password plain "other" "new" 2000 staff).1.outbox ≡ staff.outbox)
unfolding reset_password new_hash transaction rolled_back reset_account consume is_usable
reset_password-undone_example =
    reset_password-undone plain "other" "new" 2000 staff (bad_request (invalid_link ∷ [])) refl

change_password-kept_example :
    ((change_password plain "u1" "s1" "secret" "new" 2000 staff).1.sessions
      ≡ filter (λ s. not (s.user_id === "u1") || s.id === "s1") staff.sessions)
    × ((u : User) × (find_user "u1"
            (change_password plain "u1" "s1" "secret" "new" 2000 staff).1.users
          ≡ some u)
        × (has_password plain "new" u.password_hash ≡ true))
unfolding change_password new_hash transaction rolled_back store_password updated_user has_password
change_password-kept_example = change_password-kept plain "u1" "s1" "secret" "new" 2000 staff refl

abbrev ada_in : AuthUser
ada_in = user_of signed_in

reach-guarded_example :
    (v : ValidSession) × ((validate plain 86_400_000 "cookie" 2000 staff).0 ≡ ok (some v))
    × (ada_in ≡ user_of v)
    × (has_role (admin ∷ []) (some ada_in) ≡ true)
unfolding reach session_user with_role check_role has_role signed validate validate_found
reach-guarded_example = reach-guarded plain 86_400_000 "cookie" (admin ∷ []) 2000 staff ada_in refl

issue_cancels_example :
    count_if
      (is_token_of "u1" password_reset)
      (issue plain "u1" password_reset 3000 2000 staff).1.tokens
    ≡ 1
issue_cancels_example = issue_cancels plain "u1" password_reset 3000 2000 staff
