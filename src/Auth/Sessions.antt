-- ===== src/Auth/Sessions.antt =====
-- sessions.service.ts: server-side sessions. The cookie holds a token, the database its hash.
use tmx_assessment.Prelude.{
  ℕ, ◌+◌, ◌-◌, String, Bool, ◌&&◌, not, ltb, leb, ◌==◌, Option, none, some, [], ◌∷◌, ◌++◌, filter,
  find?, count_if, if◌then◌else◌,
}
use tmx_assessment.Prelude.Text.{◌===◌}
use tmx_assessment.Http.{ok, Action}
use tmx_assessment.Take.Store.{update_many}
use tmx_assessment.Auth.Store.{User, Session, RequestMeta, Platform, Db, find_user, is_active}

-- SESSION_ABSOLUTE_TTL_MS
abbrev pub session_absolute_ttl : ℕ
session_absolute_ttl = 2_592_000_000

-- SESSION_RENEW_INTERVAL_MS
abbrev pub session_renew_interval : ℕ
session_renew_interval = 3_600_000

pub record IssuedSession : Type 0 where
  pub token : String
  pub absolute_expires_at : ℕ

pub record ValidSession : Type 0 where
  pub session : Session
  pub user : User

abbrev min : ℕ → ℕ → ℕ
min m n = if leb m n then m else n

-- The idle time after now, and at most the end of the session.
unfoldable pub idle_expiry : (idle_ttl now absolute : ℕ) → ℕ
idle_expiry idle_ttl now absolute = min (now + idle_ttl) absolute

-- Another user's session, or the one to keep.
abbrev pub survives : String → Option String → Session → Bool
survives user_id none s = not (s.user_id === user_id)
survives user_id (some kept) s = not (s.user_id === user_id && not (s.id === kept))

-- Pushes the idle expiry of a session forward.
unfoldable pub renewed : (idle_ttl now : ℕ) → Session → Session
unfolding idle_expiry
renewed idle_ttl now s = record s {
  last_used_at = now;
  expires_at = idle_expiry idle_ttl now (s.created_at + session_absolute_ttl);
}

module _ (p : Platform) (idle_ttl : ℕ) where
  open p use {Source, hash_token, token, id}

  unfoldable pub create_session : String → RequestMeta → ℕ → Action (Db Source) IssuedSession
  unfolding idle_expiry
  create_session user_id meta now db =
      let (secret, source) = token db.source in
      let (session_id, source') = id source in
      let absolute = now + session_absolute_ttl in
      (
        ok (record { token = secret; absolute_expires_at = absolute }),
        record db {
          sessions =
              db.sessions
              ++ record {
                id = session_id;
                user_id = user_id;
                token_hash = hash_token secret;
                expires_at = idle_expiry idle_ttl now absolute;
                last_used_at = now;
                created_at = now;
                ip_address = meta.ip_address;
                user_agent = meta.user_agent;
              }
                ∷ [];
          source = source';
        },
      )

  -- The row found at first can be gone by the time of the update.
  abbrev same_row : Session → Session → Bool
  same_row s t = t.id === s.id

  unfoldable pub renew : Session → User → ℕ → Action (Db Source) (Option ValidSession)
  unfolding renewed
  renew session user now db =
      let count = count_if (same_row session) db.sessions in
      let r : Session = renewed idle_ttl now session in
      let change : Session → Session =
        λ t. record t { last_used_at = now; expires_at = r.expires_at } in
      let db' : Db Source = record db {
        sessions = update_many (same_row session) change db.sessions;
      } in
      if count == 0 then (ok none, db') else (ok (some (record { session = r; user = user })), db')

  unfoldable pub validate_found : Session → User → ℕ → Action (Db Source) (Option ValidSession)
  unfolding renew
  validate_found session user now db =
      if leb session.expires_at now
      then (ok none, record db { sessions = filter (λ t. not (same_row session t)) db.sessions })
      else if not (is_active user.status)
      then (ok none, db)
      else if ltb (now - session.last_used_at) session_renew_interval
      then (ok (some (record { session = session; user = user })), db)
      else renew session user now db

  -- A session's user is there, since the database deletes a user's sessions with the user.
  unfoldable pub validate : String → ℕ → Action (Db Source) (Option ValidSession)
  unfolding validate_found
  validate secret now db = elim (find? (λ s. s.token_hash === hash_token secret) db.sessions) [
    | none ↦ (ok none, db)
    | some session ↦ elim (find_user session.user_id db.users) [
      | none ↦ (ok none, db)
      | some user ↦ validate_found session user now db
    ]
  ]

module _ (p : Platform) where
  open p use {Source, hash_token}

  unfoldable pub revoke_by_token : String → Db Source → Db Source
  revoke_by_token secret db = record db {
    sessions = filter (λ s. not (s.token_hash === hash_token secret)) db.sessions;
  }

module _ {Source : Type 0} where
  -- Signs the user out everywhere, except in the session to keep.
  unfoldable pub revoke_all_for_user : String → Option String → Db Source → Db Source
  revoke_all_for_user user_id keep db = record db {
    sessions = filter (survives user_id keep) db.sessions;
  }

  unfoldable pub delete_expired_for_user : String → ℕ → Db Source → Db Source
  delete_expired_for_user user_id now db = record db {
    sessions = filter (λ s. not (s.user_id === user_id && ltb s.expires_at now)) db.sessions;
  }
