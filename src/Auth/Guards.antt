-- ===== src/Auth/Guards.antt =====
-- guards/session-auth.guard.ts and guards/roles.guard.ts: who reaches a route of the staff API. The cookie
-- and the route's marks are read by the framework, and are arguments here.
use tmx_assessment.Prelude.{
  ℕ, ◌≡◌, String, Bool, true, false, not, Option, none, some, List, [], ◌∷◌, any, if◌then◌else◌,
  refl, sym, subst, inl, inr, Bool-cases,
}
use tmx_assessment.Prelude.Text.{filled}
use tmx_assessment.Http.{HttpError, Result, ok, err, unauthorized, forbidden}
use tmx_assessment.Auth.Store.{UserRole, admin, member, Platform, Db}
use tmx_assessment.Auth.Sessions.{ValidSession, validate}

pub record AuthUser : Type 0 where
  pub id : String
  pub email : String
  pub name : String
  pub role : UserRole
  pub session_id : String

abbrev pub same_role : UserRole → UserRole → Bool
same_role admin admin = true
same_role member member = true
same_role _ _ = false

abbrev pub sign_in_first : String
sign_in_first = "Sign in to continue."

abbrev pub session_ended : String
session_ended = "Your session has ended. Sign in again."

abbrev pub no_permission : String
no_permission = "You do not have permission to do this."

abbrev pub user_of : ValidSession → AuthUser
user_of v = record {
  id = v.user.id;
  email = v.user.email;
  name = v.user.name;
  role = v.user.role;
  session_id = v.session.id;
}

-- Whether a route with these roles lets the user in. No roles let everyone in.
unfoldable pub has_role : List UserRole → Option AuthUser → Bool
has_role [] user = true
has_role (role ∷ roles) none = false
has_role (role ∷ roles) (some user) = any (same_role user.role) (role ∷ roles)

-- RolesGuard, which runs after SessionAuthGuard
unfoldable pub check_role : List UserRole → Option AuthUser → Result (Option AuthUser)
unfolding has_role
check_role roles user = if has_role roles user then ok user else err (forbidden no_permission)

unfoldable pub signed_in : Result (Option ValidSession) → Result AuthUser
signed_in (ok none) = err (unauthorized session_ended)
signed_in (ok (some v)) = ok (user_of v)
signed_in (err e) = err e

-- The second guard, after the first one
unfoldable pub with_role : List UserRole → Result AuthUser → Result AuthUser
unfolding check_role
with_role roles (err e) = err e
with_role roles (ok user) = elim (check_role roles (some user)) [ err e ↦ err e | ok u ↦ ok user ]

abbrev IsGuarded : List UserRole → Result (Option ValidSession) → AuthUser → Type 0
IsGuarded roles found user =
    (v : ValidSession) × (found ≡ ok (some v))
    × (user ≡ user_of v)
    × (has_role roles (some user) ≡ true)

ok_inj : {a b : AuthUser} → ◌≡◌ {A = Result AuthUser} (ok a) (ok b) → a ≡ b
ok_inj e = cc

err_ok : {f : HttpError} {b : AuthUser} → ◌≡◌ {A = Result AuthUser} (err f) (ok b) → ⊥
err_ok e = cc

with_role-IsGuarded :
    (roles : List UserRole) (found : Result (Option ValidSession)) (user : AuthUser)
    → with_role roles (signed_in found) ≡ ok user
    → IsGuarded roles found user
unfolding with_role signed_in check_role
with_role-IsGuarded roles (ok none) user e = cc
with_role-IsGuarded roles (err f) user e = cc
with_role-IsGuarded roles (ok (some v)) user e =
    elim (Bool-cases (has_role roles (some (user_of v)))) [
      | inl h ↦
          let same : user_of v ≡ user = ok_inj (rw (h, with_role) at e) in
          (v, refl, sym same, subst (λ u. has_role roles (some u) ≡ true) same h)
      | inr h ↦ absurd (err_ok (rw (h, with_role) at e))
    ]

module _ (p : Platform) (idle_ttl : ℕ) where
  open p use {Source}

  -- The session of the cookie; a dead cookie is dropped from the browser.
  unfoldable pub session_user : Option String → ℕ → Db Source → Result AuthUser × Db Source
  unfolding validate signed_in
  session_user none now db = (err (unauthorized sign_in_first), db)
  session_user (some token) now db =
      if not (filled token)
      then (err (unauthorized sign_in_first), db)
      else (let (found, db') = validate p idle_ttl token now db in (signed_in found, db'))

  -- Both guards, for a route that is not public.
  unfoldable pub reach : Option String → List UserRole → ℕ → Db Source → Result AuthUser
  unfolding session_user with_role
  reach cookie roles now db = with_role roles (session_user cookie now db).0

  -- Who reaches a route that is not public came with a cookie that `validate` took for a live session, is
  -- the user of that session, and has one of the route's roles, if it names any.
  pub reach-guarded :
      (token : String) (roles : List UserRole) (now : ℕ) (db : Db Source) (user : AuthUser)
      → reach (some token) roles now db ≡ ok user
      → (v : ValidSession) × ((validate p idle_ttl token now db).0 ≡ ok (some v))
        × (user ≡ user_of v)
        × (has_role roles (some user) ≡ true)
  unfolding reach session_user
  reach-guarded token roles now db user e = elim (Bool-cases (filled token)) [
    | inl f ↦ with_role-IsGuarded roles _ user (rw (f, reach) at e)
    | inr f ↦ absurd (err_ok (rw (f, reach) at e))
  ]
