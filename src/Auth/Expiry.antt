-- ===== src/Auth/Expiry.antt =====
-- Proofs about sessions.service.ts: when sessions end, and which ones let a request in.
use tmx_assessment.Prelude.{
  ℕ, ◌+◌, ◌≤◌, ◌<◌, ◌≡◌, arith, refl, sym, ap, ◌∙◌, String, Bool, true, some, List, [], ◌∷◌, All,
  All-append, inl, inr, Option-cases, find?,
}
use tmx_assessment.Prelude.Text.{◌===◌}
use tmx_assessment.Http.{ok}
use tmx_assessment.Auth.Store.{User, Session, RequestMeta, Platform, Db, find_user, is_active}
use tmx_assessment.Auth.Sessions.{
  ValidSession, session_absolute_ttl, idle_expiry, renewed, create_session, renew, validate_found,
  validate,
}

-- The session's expiry is not past its absolute end.
abbrev pub IsCapped : Session → Type 0
IsCapped s = s.expires_at ≤ s.created_at + session_absolute_ttl

-- What a request that is let in may rely on.
abbrev pub IsLive : ℕ → ValidSession → Type 0
IsLive now v =
    (now < v.session.expires_at)
    × (v.session.expires_at ≤ v.session.created_at + session_absolute_ttl)
    × (is_active v.user.status ≡ true)

found_in :
    (test : Session → Bool) (ss : List Session) (s : Session)
    → All IsCapped ss
    → find? test ss ≡ some s
    → IsCapped s
found_in test [] s h e = cc
found_in test (t ∷ ss) s h e = ground (arith, found_in test ss s h.1)

module _ (p : Platform) (idle_ttl : ℕ) where
  open p use {Source, hash_token, token, id}

  -- A new session is capped, so sessions that were capped stay so.
  pub create_session-IsCapped :
      (user_id : String) (meta : RequestMeta) (now : ℕ) (db : Db Source)
      → All IsCapped db.sessions
      → All IsCapped (create_session p idle_ttl user_id meta now db).1.sessions
  unfolding create_session idle_expiry
  create_session-IsCapped user_id meta now db h =
      All-append IsCapped db.sessions _ h (ground arith, tt)

  validate_found-IsLive :
      (s : Session) (u : User) (now : ℕ) (db : Db Source) (v : ValidSession)
      → IsCapped s
      → 0 < idle_ttl
      → (validate_found p idle_ttl s u now db).0 ≡ ok (some v)
      → IsLive now v
  unfolding validate_found renew renewed idle_expiry
  validate_found-IsLive s u now db v h pos e = ground arith

  validated :
      (secret : String) (now : ℕ) (db : Db Source) (s : Session) (u : User)
      → find? (λ t. t.token_hash === hash_token secret) db.sessions ≡ some s
      → find_user s.user_id db.users ≡ some u
      → validate p idle_ttl secret now db ≡ validate_found p idle_ttl s u now db
  unfolding validate
  validated secret now db s u f g = rw (validate, f) (rw g refl)

  -- Where every session is capped, a token lets a request in only with a live one.
  pub validate_capped-IsLive :
      (secret : String) (now : ℕ) (db : Db Source) (v : ValidSession)
      → All IsCapped db.sessions
      → 0 < idle_ttl
      → (validate p idle_ttl secret now db).0 ≡ ok (some v)
      → IsLive now v
  unfolding validate
  validate_capped-IsLive secret now db v h pos e =
      elim (Option-cases (find? (λ s. s.token_hash === hash_token secret) db.sessions)) [
        | inl f ↦ ground arith
        | inr (s, f) ↦ elim (Option-cases (find_user s.user_id db.users)) [
          | inl g ↦ ground arith
          | inr (u, g) ↦
              validate_found-IsLive s u now db v (found_in _ _ s h f) pos
                (ap (λ r. r.0) (sym (validated secret now db s u f g)) ∙ e)
        ]
      ]
