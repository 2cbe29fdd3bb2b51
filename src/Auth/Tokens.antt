-- ===== src/Auth/Tokens.antt =====
-- auth-tokens.service.ts: single-use tokens sent by email.
use tmx_assessment.Prelude.{
  ℕ, ◌+◌, String, Bool, true, false, ◌&&◌, not, ltb, ◌==◌, Option, none, some, List, [], ◌∷◌, ◌++◌,
  filter, find?, count_if, if◌then◌else◌,
}
use tmx_assessment.Prelude.Text.{◌===◌}
use tmx_assessment.Http.{ok, err, bad_request, internal, Action, found_or}
use tmx_assessment.Take.Store.{update_many}
use tmx_assessment.Auth.Store.{AuthTokenType, same_type, User, AuthToken, Platform, Db, find_user}

abbrev pub invalid_link : String
invalid_link = "This link is invalid or has expired."

pub record IssuedToken : Type 0 where
  pub token : String
  pub expires_at : ℕ

-- A user's tokens of one type
abbrev pub is_token_of : String → AuthTokenType → AuthToken → Bool
is_token_of user_id type t = t.user_id === user_id && same_type t.type type

abbrev pub is_unused : Option ℕ → Bool
is_unused none = true
is_unused (some time) = false

-- Whether the token can be used now: it is of the type, was not used, and has not expired.
unfoldable pub is_usable : String → AuthTokenType → ℕ → AuthToken → Bool
is_usable token_hash type now t =
    t.token_hash === token_hash
    && same_type t.type type
    && is_unused t.used_at
    && ltb now t.expires_at

unfoldable pub mark_used : String → AuthTokenType → ℕ → List AuthToken → List AuthToken
unfolding is_usable
mark_used token_hash type now tokens =
    update_many (is_usable token_hash type now) (λ t. record t { used_at = some now }) tokens

module _ (p : Platform) where
  open p use {Source, hash_token, token}

  unfoldable pub issue : String → AuthTokenType → ℕ → ℕ → Action (Db Source) IssuedToken
  issue user_id type ttl now db =
      let (secret, source) = token db.source in
      let kept : List AuthToken = filter (λ t. not (is_token_of user_id type t)) db.tokens in
      (
        ok (record { token = secret; expires_at = now + ttl }),
        record db {
          tokens =
              kept
              ++ record {
                user_id = user_id;
                type = type;
                token_hash = hash_token secret;
                expires_at = now + ttl;
                used_at = none;
              }
                ∷ [];
          source = source;
        },
      )

  -- The user of a token, found by its hash
  unfoldable pub owner_of : String → Db Source → Option User
  owner_of secret db = elim (find? (λ t. t.token_hash === hash_token secret) db.tokens) [
    | none ↦ none
    | some t ↦ find_user t.user_id db.users
  ]

  -- Marks the token used, and gives its user.
  unfoldable pub consume : String → AuthTokenType → ℕ → Action (Db Source) User
  unfolding mark_used is_usable owner_of
  consume secret type now db =
      let count = count_if (is_usable (hash_token secret) type now) db.tokens in
      let db' : Db Source = record db {
        tokens = mark_used (hash_token secret) type now db.tokens;
      } in
      if count == 1
      then found_or internal (owner_of secret db') db'
      else (err (bad_request (invalid_link ∷ [])), db')
