-- ===== src/Auth/Capped.antt =====
-- Proofs about the staff requests: no session outlives its absolute end, in any state that they lead to.
use tmx_assessment.Prelude.{
  ℕ, ◌+◌, ◌≤◌, ◌<◌, ◌≡◌, arith, String, Bool, true, not, ltb, leb, ◌-◌, ◌==◌, Option, some,
  All-filter, inl, inr, Option-cases, find?, count_if,
}
use tmx_assessment.Prelude.Text.{◌===◌}
use tmx_assessment.Http.{unauthorized, forbidden, ok, err, modify}
use tmx_assessment.Auth.Store.{
  User, Session, RequestMeta, Platform, Db, find_user, find_email, is_active, is_deactivated,
  transaction,
}
use tmx_assessment.Auth.Sessions.{
  ValidSession, session_absolute_ttl, session_renew_interval, idle_expiry, renewed, create_session,
  renew, validate_found, validate, revoke_by_token, delete_expired_for_user,
}
use tmx_assessment.Auth.Accounts.{
  SignedIn, invalid_credentials, account_deactivated, login, sign_in, updated_user, new_hash,
  has_password,
}
use tmx_assessment.Auth.Invites.{accept, accept_account}
use tmx_assessment.Auth.Requests.{
  StaffRequest, to_log_in, to_change_password, to_ask_reset, to_reset_password, to_invite,
  to_accept, to_validate, to_log_out, IsKeyed, handle_staff, Reached, no_sessions, after,
}
use tmx_assessment.Auth.Renewed.{matched_keeps}
use tmx_assessment.Auth.Expiry.{IsCapped, create_session-IsCapped, validate_capped-IsLive}
use tmx_assessment.Auth.Keeping.{
  Capped, Keeps, steady, kept, bind-Keeps, pure-Keeps, if_keeps, transaction-Keeps, expired-Keeps,
}
use tmx_assessment.Auth.Kept.{
  new_hash-Keeps, updated-Keeps, change_password-Keeps, reset_password-Keeps, asked-Keeps,
  invite-Keeps, accept_account-Keeps,
}

module _ (p : Platform) (idle_ttl : ℕ) where
  open p use {Source, hash_token}

  create_session-Keeps :
      (user_id : String) (meta : RequestMeta) (now : ℕ)
      → Keeps (create_session p idle_ttl user_id meta now)
  create_session-Keeps user_id meta now =
      steady (create_session-IsCapped p idle_ttl user_id meta now)

  sign_in-Keeps :
      (user : User) (meta : RequestMeta) (now : ℕ) → Keeps (sign_in p idle_ttl user meta now)
  unfolding sign_in
  sign_in-Keeps user meta now =
      bind-Keeps (modify (delete_expired_for_user user.id now)) _ (expired-Keeps user.id now) λ x.
        bind-Keeps (create_session p idle_ttl user.id meta now) _
          (create_session-Keeps user.id meta now)
          λ session.
            bind-Keeps (updated_user p user.id (λ u. record u { last_login_at = some now })) _
              (updated-Keeps p user.id (λ u. record u { last_login_at = some now }))
              λ u. pure-Keeps {A = SignedIn} (record { user = u; session = session })

  log_in-Keeps :
      (email password : String) (meta : RequestMeta) (now : ℕ)
      → Keeps (login p idle_ttl email password meta now)
  unfolding login
  log_in-Keeps email password meta now = steady λ db h.
      elim (Option-cases (find_email email db.users)) [
        | inl f ↦ rw (f, login) h
        | inr (u, f) ↦
            rw (f, login)
              (if_keeps (not (has_password p password u.password_hash))
                (err (unauthorized invalid_credentials), db) _ h
                (if_keeps (is_deactivated u.status) (err (forbidden account_deactivated), db)
                  (sign_in p idle_ttl u meta now db) h (kept (sign_in-Keeps u meta now) db h)))
      ]

  accept-Keeps :
      (token password : String) (name : Option String) (meta : RequestMeta) (now : ℕ)
      → Keeps (accept p idle_ttl token password name meta now)
  unfolding accept
  accept-Keeps token password name meta now =
      bind-Keeps (new_hash p password) _ (new_hash-Keeps p password) λ hash.
        bind-Keeps (transaction (accept_account p token hash name now)) _
          (transaction-Keeps (accept_account p token hash name now)
            (accept_account-Keeps p token hash name now))
          λ u.
            bind-Keeps (create_session p idle_ttl u.id meta now) _
              (create_session-Keeps u.id meta now)
              λ session. pure-Keeps {A = SignedIn} (record { user = u; session = session })

  validate_found_keeps :
      (test : Session → Bool) (s : Session) (u : User) (now : ℕ) (db : Db Source)
      → find? test db.sessions ≡ some s
      → IsKeyed db.sessions
      → Capped db
      → Capped (validate_found p idle_ttl s u now db).1
  unfolding validate_found renew renewed idle_expiry
  validate_found_keeps test s u now db f keyed h =
      let all_kept = All-filter (λ t. not (t.id === s.id)) IsCapped db.sessions h in
      let end : ℕ = idle_expiry idle_ttl now (s.created_at + session_absolute_ttl) in
      let changed = matched_keeps test now end db.sessions s (ground arith) f (keyed s.id) h in
      if_keeps (leb s.expires_at now) _ _ all_kept (
        if_keeps (not (is_active u.status)) _ _ h (
          if_keeps (ltb (now - s.last_used_at) session_renew_interval) _ _ h
            (if_keeps (count_if (λ t. t.id === s.id) db.sessions == 0) _ _ changed changed)))

  validate_keeps :
      (secret : String) (now : ℕ) (db : Db Source)
      → IsKeyed db.sessions
      → Capped db
      → Capped (validate p idle_ttl secret now db).1
  unfolding validate
  validate_keeps secret now db keyed h =
      elim (Option-cases (find? (λ s. s.token_hash === hash_token secret) db.sessions)) [
        | inl f ↦ rw (f, validate) h
        | inr (s, f) ↦ elim (Option-cases (find_user s.user_id db.users)) [
          | inl g ↦ rw (f, validate) (rw (g, validate) h)
          | inr (u, g) ↦
              rw (f, validate) (rw (g, validate) (validate_found_keeps _ s u now db f keyed h))
        ]
      ]

  handle_keeps :
      (r : StaffRequest) (db : Db Source)
      → IsKeyed db.sessions
      → Capped db
      → Capped (handle_staff p idle_ttl r db)
  unfolding handle_staff revoke_by_token
  handle_keeps (to_log_in email password meta now) db keyed h =
      kept (log_in-Keeps email password meta now) db h
  handle_keeps (to_change_password user_id session_id current new now) db keyed h =
      kept (change_password-Keeps p user_id session_id current new now) db h
  handle_keeps (to_ask_reset email now) db keyed h = kept (asked-Keeps p email now) db h
  handle_keeps (to_reset_password token new now) db keyed h =
      kept (reset_password-Keeps p token new now) db h
  handle_keeps (to_invite input inviter now) db keyed h =
      kept (invite-Keeps p input inviter now) db h
  handle_keeps (to_accept token password name meta now) db keyed h =
      kept (accept-Keeps token password name meta now) db h
  handle_keeps (to_validate secret now) db keyed h = validate_keeps secret now db keyed h
  handle_keeps (to_log_out secret) db keyed h =
      All-filter (λ s. not (s.token_hash === hash_token secret)) IsCapped db.sessions h

  Reached-IsKeyed : {db : Db Source} → Reached p idle_ttl db → IsKeyed db.sessions
  Reached-IsKeyed (no_sessions users tokens outbox source) = λ id. omega arith
  Reached-IsKeyed (after r before keyed) = keyed

  Reached-Capped : {db : Db Source} → Reached p idle_ttl db → Capped db
  Reached-Capped (no_sessions users tokens outbox source) = tt
  Reached-Capped (after {db} r before keyed) =
      handle_keeps r db (Reached-IsKeyed before) (Reached-Capped before)

  -- In every state that staff requests lead to from one without sessions, where session ids are unique and
  -- a session may be idle for some time: a token lets a request in only with a session that has not
  -- expired, that ends 30 days after it was created at the latest, and whose user is active.
  pub validate-IsLive :
      (secret : String) (now : ℕ) (db : Db Source) (v : ValidSession)
      → Reached p idle_ttl db
      → 0 < idle_ttl
      → (validate p idle_ttl secret now db).0 ≡ ok (some v)
      → (now < v.session.expires_at)
        × (v.session.expires_at ≤ v.session.created_at + session_absolute_ttl)
        × (is_active v.user.status ≡ true)
  validate-IsLive secret now db v reached positive e =
      validate_capped-IsLive p idle_ttl secret now db v (Reached-Capped reached) positive e
