-- ===== src/Take/Guard.antt =====
-- guards/invitation-token.guard.ts: the token in a candidate's link is their access. `generateToken` and
-- `hashToken` call a cryptographic library, so the hash is a parameter.
use Prim.Native.Char.{code}
use Prim.Native.String.{[], ◌∷◌}
use tmx_assessment.Prelude.{
  ℕ, suc, ◌+◌, String, Bool, true, false, ◌&&◌, ◌||◌, not, leb, ltb, ◌==◌, Option, none, some, List,
  find?, filter, any, if◌then◌else◌,
}
use tmx_assessment.Prelude.Text.{◌===◌}
use tmx_assessment.Schema.{is_in_progress}
use tmx_assessment.Http.{not_found, gone, Result, ok, err}
use tmx_assessment.Take.Store.{Attempt, Invitation, Store}
use tmx_assessment.Take.Attempts.{deadline_grace}
use tmx_assessment.Take.Service.{take_link_expired}

abbrev pub invalid_take_link : String
invalid_take_link = "This link is invalid or has expired."

-- `[A-Za-z0-9_-]`
abbrev pub is_token_code : ℕ → Bool
is_token_code c =
    leb 65 c && leb c 90 || leb 97 c && leb c 122 || leb 48 c && leb c 57 || c == 95 || c == 45

abbrev pub all_token_chars : String → Bool
all_token_chars [] = true
all_token_chars (c ∷ s) = is_token_code (code c) && all_token_chars s

abbrev pub chars : String → ℕ
chars [] = 0
chars (c ∷ s) = suc (chars s)

-- TOKEN_PATTERN
unfoldable pub is_token : String → Bool
is_token s = chars s == 43 && all_token_chars s

-- Whether a test can still be answered, with the grace period.
unfoldable pub still_open : ℕ → Option ℕ → Bool
still_open now none = false
still_open now (some deadline) = ltb now (deadline + deadline_grace)

module _ {F : Type 0} where
  abbrev pub attempts_of : Invitation → List (Attempt F) → List (Attempt F)
  attempts_of invitation attempts = filter (λ a. a.invitation_id === invitation.id) attempts

  unfoldable pub is_running : ℕ → List (Attempt F) → Bool
  unfolding still_open
  is_running now attempts =
      any (λ a. is_in_progress a.status && still_open now a.deadline_at) attempts

-- A link that is unknown or revoked is not told from one that never was.
unfoldable pub unrevoked : Option Invitation → Option Invitation
unrevoked none = none
unrevoked (some invitation) = elim invitation.revoked_at [
  | none ↦ some invitation
  | some time ↦ none
]

module _ {F R : Type 0} where
  unfoldable pub admit : ℕ → Store F R → Invitation → Result Invitation
  unfolding is_running
  admit now s invitation =
      if leb invitation.expires_at now && not (is_running now (attempts_of invitation s.attempts))
      then err (gone take_link_expired)
      else ok invitation

  unfoldable pub can_activate :
      (hash_token : String → String) → ℕ → Store F R → String → Result Invitation
  unfolding is_token admit unrevoked
  can_activate hash_token now s token =
      if is_token token
      then (elim (unrevoked (find? (λ i. i.token_hash === hash_token token) s.invitations)) [
        | none ↦ err (not_found invalid_take_link)
        | some invitation ↦ admit now s invitation
      ])
      else err (not_found invalid_take_link)
