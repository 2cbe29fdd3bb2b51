-- ===== src/Auth/Keeping.antt =====
-- Methods that keep the sessions capped, and how they are put together: a chain, a transaction, a guard.
use tmx_assessment.Prelude.{
  ℕ, String, Bool, true, false, not, ◌&&◌, ltb, Option, none, some, All, All-filter, if◌then◌else◌,
}
use tmx_assessment.Prelude.Text.{◌===◌}
use tmx_assessment.Http.{
  HttpError, Result, ok, err, Action, pure, found_or, modify, throw_if, continue, ◌>>=◌,
}
use tmx_assessment.Auth.Store.{Db, transaction, rolled_back}
use tmx_assessment.Auth.Sessions.{revoke_all_for_user, delete_expired_for_user, survives}
use tmx_assessment.Auth.Expiry.{IsCapped}

-- A state whose sessions are capped
abbrev pub Capped : {Source : Type 0} → Db Source → Type 0
Capped db = All IsCapped db.sessions

-- A method that keeps the sessions capped, on every branch
pub data Keeps {Source A : Type 0} (m : Action (Db Source) A) : Type 0 where
  steady : ((db : Db Source) → Capped db → Capped (m db).1) → Keeps m

pub kept :
    {Source A : Type 0} {m : Action (Db Source) A}
    → Keeps m
    → (db : Db Source) → Capped db
    → Capped (m db).1
kept (steady k) = k

module _ {Source : Type 0} where
  pub continue_keeps :
      {A B : Type 0} (f : A → Action (Db Source) B)
      → ((a : A) → Keeps (f a))
      → (r : Result A × Db Source) → Capped r.1
      → Capped (continue f r).1
  continue_keeps f k (ok a, db) h = kept (k a) db h
  continue_keeps f k (err e, db) h = h

  pub bind-Keeps :
      {A B : Type 0} (m : Action (Db Source) A) (f : A → Action (Db Source) B)
      → Keeps m
      → ((a : A) → Keeps (f a))
      → Keeps (m >>= f)
  bind-Keeps m f k l = steady (λ db h. continue_keeps f l (m db) (kept k db h))

  pub pure-Keeps : {A : Type 0} (a : A) → Keeps (pure {S = Db Source} a)
  pure-Keeps a = steady (λ db h. h)

  pub throw_if-Keeps : (b : Bool) (e : HttpError) → Keeps (throw_if {S = Db Source} b e)
  throw_if-Keeps true e = steady (λ db h. h)
  throw_if-Keeps false e = steady (λ db h. h)

  pub found_or-Keeps :
      {A : Type 0} (e : HttpError) (o : Option A) → Keeps (found_or {S = Db Source} e o)
  found_or-Keeps e none = steady (λ db h. h)
  found_or-Keeps e (some a) = steady (λ db h. h)

  pub if_keeps :
      {A : Type 0} (b : Bool) (r t : Result A × Db Source)
      → Capped r.1
      → Capped t.1
      → Capped (if b then r else t).1
  if_keeps true r t h k = h
  if_keeps false r t h k = k

  pub rolled_keeps :
      {A : Type 0} (s : Db Source) (r : Result A × Db Source)
      → Capped s
      → Capped r.1
      → Capped (rolled_back s r).1
  unfolding rolled_back
  rolled_keeps s (ok a, t) h k = k
  rolled_keeps s (err e, t) h k = h

  pub transaction-Keeps :
      {A : Type 0} (body : Action (Db Source) A) → Keeps body → Keeps (transaction body)
  unfolding transaction
  transaction-Keeps body k = steady (λ db h. rolled_keeps db (body db) h (kept k db h))

  pub revoke-Keeps :
      (user_id : String) (keep : Option String)
      → Keeps (modify (revoke_all_for_user {Source = Source} user_id keep))
  unfolding revoke_all_for_user
  revoke-Keeps user_id keep =
      steady (λ db h. All-filter (survives user_id keep) IsCapped db.sessions h)

  pub expired-Keeps :
      (user_id : String) (now : ℕ)
      → Keeps (modify (delete_expired_for_user {Source = Source} user_id now))
  unfolding delete_expired_for_user
  expired-Keeps user_id now = steady λ db h.
      All-filter (λ s. not (s.user_id === user_id && ltb s.expires_at now)) IsCapped db.sessions h
