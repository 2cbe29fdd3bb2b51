-- ===== src/Auth/Passwords.antt =====
-- Proofs about auth.service.ts: sign-in, password changes and resets.
use tmx_assessment.Prelude.{
  ℕ, ◌≡◌, arith, refl, ap, String, true, false, some, List, [], ◌∷◌, Bool-cases, inl, inr,
  Option-cases, filter, not, ◌||◌,
}
use mathlib.Core.Option
use tmx_assessment.Prelude.Text.{◌===◌}
use tmx_assessment.Http.{HttpError, Result, ok, err, Action}
use tmx_assessment.Auth.Store.{
  User, Session, RequestMeta, Platform, Db, find_email, find_user, is_deactivated, transaction,
  rolled_back,
}
use tmx_assessment.Take.Store.{update_many}
use tmx_assessment.Auth.Sessions.{revoke_all_for_user, survives}
use tmx_assessment.Auth.Accounts.{
  SignedIn, has_password, login, new_hash, reset_password, change_password, store_password,
  updated_user, with_password, send_quietly,
}

rolled :
    {S A : Type 0} (s : S) (r : Result A × S) (e : HttpError)
    → (rolled_back s r).0 ≡ err e
    → (rolled_back s r).1 ≡ s
unfolding rolled_back
rolled s (ok a, t) e g = cc
rolled s (err e', t) e g = refl

-- A transaction that throws leaves the state as it was.
transaction_undone :
    {S A : Type 0} (body : Action S A) (s : S) (e : HttpError)
    → (transaction body s).0 ≡ err e
    → (transaction body s).1 ≡ s
unfolding transaction
transaction_undone body s e h = rolled s (body s) e h

kept_sessions :
    (user_id kept : String) (ss : List Session)
    → filter (survives user_id (some kept)) ss
      ≡ filter (λ s. not (s.user_id === user_id) || s.id === kept) ss
kept_sessions user_id kept [] = refl
kept_sessions user_id kept (s ∷ ss) = ground (arith, kept_sessions user_id kept ss)

module _ (p : Platform) (hash : String) (now : ℕ) where
  find_user-with_password :
      (id : String) (users : List User) (u : User)
      → find_user id users ≡ some u
      → find_user id (update_many (λ v. v.id === id) (with_password p hash now) users)
        ≡ some (with_password p hash now u)
  find_user-with_password id [] u f = cc
  find_user-with_password id (v ∷ users) u f = elim (Bool-cases (v.id === id)) [
    | inl e ↦
        let first : some v ≡ some u = rw e at f in
        rw (e, e) (ap (Option.map (with_password p hash now)) first)
    | inr e ↦ rw (e, e) (find_user-with_password id users u (rw e at f))
  ]

module _ (p : Platform) where
  open p use {Source}

  -- Who is signed in gave the email of an account that is not deactivated, and its password.
  pub login-guarded :
      (idle_ttl : ℕ) (email password : String) (meta : RequestMeta) (now : ℕ) (db : Db Source)
      (r : SignedIn)
      → (login p idle_ttl email password meta now db).0 ≡ ok r
      → (u : User) × (find_email email db.users ≡ some u)
        × (has_password p password u.password_hash ≡ true)
        × (is_deactivated u.status ≡ false)
  unfolding login
  login-guarded idle_ttl email password meta now db r e =
      elim (Option-cases (find_email email db.users)) [
        | inl f ↦ ground arith
        | inr (u, f) ↦ (u, f, ground arith, ground arith)
      ]

  -- A reset that fails leaves the accounts, the sessions, the tokens and the mail as they were.
  pub reset_password-undone :
      (token new_password : String) (now : ℕ) (db : Db Source) (e : HttpError)
      → (reset_password p token new_password now db).0 ≡ err e
      → ((reset_password p token new_password now db).1.users ≡ db.users)
        × ((reset_password p token new_password now db).1.sessions ≡ db.sessions)
        × ((reset_password p token new_password now db).1.tokens ≡ db.tokens)
        × ((reset_password p token new_password now db).1.outbox ≡ db.outbox)
  unfolding reset_password new_hash transaction rolled_back
  reset_password-undone token new_password now db e h = ground arith

  -- A password change that succeeds keeps exactly the sessions of other users and the one that it was made
  -- from, and the account has the new password from then on.
  pub change_password-kept :
      (user_id session_id current_password new_password : String) (now : ℕ) (db : Db Source)
      → (change_password p user_id session_id current_password new_password now db).0 ≡ ok tt
      → ((change_password p user_id session_id current_password new_password now db).1.sessions
          ≡ filter (λ s. not (s.user_id === user_id) || s.id === session_id) db.sessions)
        × ((u : User) × (find_user user_id
                (change_password p user_id session_id current_password new_password now db).1.users
              ≡ some u)
            × (has_password p new_password u.password_hash ≡ true))
  unfolding change_password new_hash transaction rolled_back store_password updated_user
      send_quietly revoke_all_for_user has_password
  change_password-kept user_id session_id current_password new_password now db h =
      elim (Option-cases (find_user user_id db.users)) [
        | inl f ↦ absurd (ground arith)
        | inr (u, f) ↦
            let hash : String = (p.hash_password db.source new_password).0 in
            let row = find_user-with_password p hash now user_id db.users u f in
            (
              ground (arith, kept_sessions user_id session_id db.sessions),
              (
                with_password p hash now u,
                ground (arith, row),
                p.verify-hash_password db.source new_password,
              ),
            )
      ]
