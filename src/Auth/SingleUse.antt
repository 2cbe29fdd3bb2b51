-- ===== src/Auth/SingleUse.antt =====
-- Proofs about auth-tokens.service.ts: issuing a token, and using it more than once.
use tmx_assessment.Prelude.{
  ℕ, ◌≤◌, ◌≡◌, ◌∙◌, arith, refl, inl, inr, String, Bool, true, not, Bool-cases, List, [], ◌∷◌,
  filter, count_if, count_if-append,
}
use tmx_assessment.Prelude.Text.{eq_refl}
use tmx_assessment.Http.{ok, err, bad_request}
use tmx_assessment.Auth.Store.{
  AuthTokenType, invitation, password_reset, same_type, User, AuthToken, Platform, Db,
}
use tmx_assessment.Auth.Tokens.{is_token_of, issue, is_usable, mark_used, consume, invalid_link}

none_usable :
    (hash : String) (type : AuthTokenType) (now later : ℕ) (tokens : List AuthToken)
    → now ≤ later
    → count_if (is_usable hash type later) (mark_used hash type now tokens) ≡ 0
unfolding mark_used is_usable
none_usable hash type now later [] h = refl
none_usable hash type now later (t ∷ tokens) h =
    ground (arith, none_usable hash type now later tokens h)

module _ (p : Platform) where
  open p use {Source, hash_token}

  consume_marks :
      (secret : String) (type : AuthTokenType) (now : ℕ) (db db' : Db Source) (u : User)
      → consume p secret type now db ≡ (ok u, db')
      → db'.tokens ≡ mark_used (hash_token secret) type now db.tokens
  unfolding consume
  consume_marks secret type now db db' u e = ground arith

  refused :
      (secret : String) (type : AuthTokenType) (now : ℕ) (db : Db Source)
      → count_if (is_usable (hash_token secret) type now) db.tokens ≡ 0
      → (consume p secret type now db).0 ≡ err (bad_request (invalid_link ∷ []))
  unfolding consume
  refused secret type now db e = rw (consume, e) refl

  -- A token that was used once is refused from then on.
  pub consume_once :
      (secret : String) (type : AuthTokenType) (now later : ℕ) (db db' : Db Source) (u : User)
      → consume p secret type now db ≡ (ok u, db')
      → now ≤ later
      → (consume p secret type later db').0 ≡ err (bad_request (invalid_link ∷ []))
  consume_once secret type now later db db' u e h = refused secret type later db' (
      rw (consume_marks secret type now db db' u e)
        (none_usable (hash_token secret) type now later db.tokens h))

count_if-filter :
    (test : AuthToken → Bool) (ts : List AuthToken)
    → count_if test (filter (λ t. not (test t)) ts) ≡ 0
count_if-filter test [] = refl
count_if-filter test (t ∷ ts) = elim (Bool-cases (test t)) [
  | inl e ↦ rw e (count_if-filter test ts)
  | inr e ↦ rw e (rw e (count_if-filter test ts))
]

same_type_refl : (type : AuthTokenType) → same_type type type ≡ true
same_type_refl invitation = refl
same_type_refl password_reset = refl

module _ (p : Platform) where
  open p use {Source}

  -- After a token is issued, the user has exactly one token of its type, whatever there was before.
  pub issue_cancels :
      (user_id : String) (type : AuthTokenType) (ttl now : ℕ) (db : Db Source)
      → count_if (is_token_of user_id type) (issue p user_id type ttl now db).1.tokens ≡ 1
  unfolding issue
  issue_cancels user_id type ttl now db =
      count_if-append (is_token_of user_id type)
        (filter (λ t. not (is_token_of user_id type t)) db.tokens) _
      ∙ rw
          (
            count_if-filter (is_token_of user_id type) db.tokens,
            eq_refl user_id,
            same_type_refl type,
          )
          refl
