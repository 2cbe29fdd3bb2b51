-- ===== src/Auth/Kept.antt =====
-- Proofs about the methods of auth.service.ts and invitations.service.ts: those that make no session keep
-- the sessions capped, on every branch.
use tmx_assessment.Prelude.{
  ℕ, String, not, ◌==◌, Option, none, some, [], ◌∷◌, inl, inr, Bool-cases, Option-cases, count_if,
}
use mathlib.Core.Option
use tmx_assessment.Prelude.Text.{◌===◌}
use tmx_assessment.Http.{internal, conflict, bad_request, ok, err, found_or, modify, throw_if}
use tmx_assessment.Auth.Store.{
  User, AuthTokenType, Mail, password_changed_mail, password_reset_mail, password_reset, invitation,
  Platform, Db, find_user, find_email, is_active, is_invited, transaction,
}
use tmx_assessment.Auth.Tokens.{issue, consume, owner_of, mark_used, is_usable, invalid_link}
use tmx_assessment.Auth.Sessions.{revoke_all_for_user}
use tmx_assessment.Auth.Accounts.{
  change_password, store_password, reset_password, reset_account, request_password_reset,
  send_reset, password_reset_ttl, password_reset_minutes, send_quietly, updated_user, update_user,
  new_hash, with_password, has_password, wrong_password, same_password,
}
use tmx_assessment.Auth.Invites.{
  InvitationInput, Inviter, CreatedInvitation, invitation_ttl, invite, create_invitation,
  save_invitation, saved_user, send_invitation, accept_account, accepted_user, is_taken,
  already_exists,
}
use tmx_assessment.Auth.Keeping.{
  Keeps, steady, kept, bind-Keeps, pure-Keeps, throw_if-Keeps, found_or-Keeps, if_keeps,
  transaction-Keeps, revoke-Keeps,
}

module _ (p : Platform) where
  open p use {Source, hash_token, id, link, accepts_mail}

  pub new_hash-Keeps : (password : String) → Keeps (new_hash p password)
  unfolding new_hash
  new_hash-Keeps password = steady (λ db h. h)

  pub mail-Keeps : (mail : Mail) → Keeps (modify (send_quietly p mail))
  unfolding send_quietly
  mail-Keeps mail =
      steady λ db h. elim (Bool-cases (accepts_mail mail)) [ inl e ↦ rw e h | inr e ↦ rw e h ]

  pub updated-Keeps :
      (user_id : String) (change : User → User) → Keeps (updated_user p user_id change)
  unfolding updated_user
  updated-Keeps user_id change = steady λ db h.
      let db' : Db Source = update_user user_id change db in
      kept (found_or-Keeps internal (find_user user_id db'.users)) db' h

  pub consume-Keeps :
      (secret : String) (type : AuthTokenType) (now : ℕ) → Keeps (consume p secret type now)
  unfolding consume
  consume-Keeps secret type now = steady λ db h.
      let hash : String = hash_token secret in
      let used : Db Source = record db { tokens = mark_used hash type now db.tokens } in
      if_keeps (count_if (is_usable hash type now) db.tokens == 1)
        (found_or internal (owner_of p secret used) used)
        (err (bad_request (invalid_link ∷ [])), used)
        (kept (found_or-Keeps internal (owner_of p secret used)) used h) h

  pub issue-Keeps :
      (user_id : String) (type : AuthTokenType) (ttl now : ℕ) → Keeps (issue p user_id type ttl now)
  unfolding issue
  issue-Keeps user_id type ttl now = steady (λ db h. h)

  pub store_password-Keeps :
      (user_id kept hash : String) (now : ℕ) → Keeps (store_password p user_id kept hash now)
  unfolding store_password
  store_password-Keeps user_id kept hash now =
      bind-Keeps (updated_user p user_id (with_password p hash now)) _
        (updated-Keeps user_id (with_password p hash now))
        λ u.
          bind-Keeps (modify (revoke_all_for_user user_id (some kept))) _
            (revoke-Keeps user_id (some kept)) λ x. pure-Keeps u

  pub change_password-Keeps :
      (user_id session_id current new : String) (now : ℕ)
      → Keeps (change_password p user_id session_id current new now)
  unfolding change_password
  change_password-Keeps user_id session_id current new now =
      bind-Keeps (λ db. found_or internal (find_user user_id db.users) db) _
        (steady λ db h. kept (found_or-Keeps internal (find_user user_id db.users)) db h)
        λ u.
          bind-Keeps
            (throw_if (not (has_password p current u.password_hash))
              (bad_request (wrong_password ∷ [])))
            _
            (throw_if-Keeps (not (has_password p current u.password_hash))
              (bad_request (wrong_password ∷ [])))
            λ x.
              bind-Keeps (throw_if (new === current) (bad_request (same_password ∷ []))) _
                (throw_if-Keeps (new === current) (bad_request (same_password ∷ [])))
                λ y. bind-Keeps (new_hash p new) _ (new_hash-Keeps new) λ hash.
                  bind-Keeps (transaction (store_password p user_id session_id hash now)) _
                    (transaction-Keeps (store_password p user_id session_id hash now)
                      (store_password-Keeps user_id session_id hash now))
                    λ v. mail-Keeps (password_changed_mail u.email u.name)

  pub reset_account-Keeps : (token hash : String) (now : ℕ) → Keeps (reset_account p token hash now)
  unfolding reset_account
  reset_account-Keeps token hash now =
      bind-Keeps (consume p token password_reset now) _ (consume-Keeps token password_reset now)
        λ owner.
          bind-Keeps (throw_if (not (is_active owner.status)) (bad_request (invalid_link ∷ []))) _
            (throw_if-Keeps (not (is_active owner.status)) (bad_request (invalid_link ∷ [])))
            λ x.
              bind-Keeps (modify (revoke_all_for_user owner.id none)) _ (revoke-Keeps owner.id none)
                λ y. updated-Keeps owner.id (with_password p hash now)

  pub reset_password-Keeps : (token new : String) (now : ℕ) → Keeps (reset_password p token new now)
  unfolding reset_password
  reset_password-Keeps token new now = bind-Keeps (new_hash p new) _ (new_hash-Keeps new) λ hash.
      bind-Keeps (transaction (reset_account p token hash now)) _
        (transaction-Keeps (reset_account p token hash now) (reset_account-Keeps token hash now))
        λ u. mail-Keeps (password_changed_mail u.email u.name)

  pub send_reset-Keeps : (user : User) (now : ℕ) → Keeps (send_reset p user now)
  unfolding send_reset
  send_reset-Keeps user now =
      bind-Keeps (issue p user.id password_reset password_reset_ttl now) _
        (issue-Keeps user.id password_reset password_reset_ttl now)
        λ t. mail-Keeps (
          password_reset_mail user.email user.name (link "/reset-password" t.token)
            password_reset_minutes)

  pub asked-Keeps : (email : String) (now : ℕ) → Keeps (request_password_reset p email now)
  unfolding request_password_reset
  asked-Keeps email now = steady λ db h. elim (Option-cases (find_email email db.users)) [
    | inl f ↦ rw (f, request_password_reset) h
    | inr (u, f) ↦
        rw (f, request_password_reset)
          (if_keeps (is_active u.status) (send_reset p u now db) (ok tt, db)
            (kept (send_reset-Keeps u now) db h) h)
  ]

  pub saved_user-Keeps :
      (existing : Option User) (input : InvitationInput) (by' : Option String)
      → Keeps (saved_user p existing input by')
  unfolding saved_user
  saved_user-Keeps none input by' = steady (λ db h. h)
  saved_user-Keeps (some u) input by' = updated-Keeps u.id _

  pub save_invitation-Keeps :
      (existing : Option User) (input : InvitationInput) (by' : Option String) (now : ℕ)
      → Keeps (save_invitation p existing input by' now)
  unfolding save_invitation
  save_invitation-Keeps existing input by' now =
      bind-Keeps (saved_user p existing input by') _ (saved_user-Keeps existing input by') λ u.
        bind-Keeps (issue p u.id invitation invitation_ttl now) _
          (issue-Keeps u.id invitation invitation_ttl now)
          λ t. pure-Keeps {A = CreatedInvitation} (record {
            user = u;
            accept_url = link "/accept-invite" t.token;
            expires_at = t.expires_at;
          })

  pub create_invitation-Keeps :
      (input : InvitationInput) (by' : Option String) (now : ℕ)
      → Keeps (create_invitation p input by' now)
  unfolding create_invitation
  create_invitation-Keeps input by' now = steady λ db h.
      let existing : Option User = find_email input.email db.users in
      if_keeps (is_taken p existing) (err (conflict already_exists), db)
        (transaction (save_invitation p existing input by' now) db) h
        (kept (transaction-Keeps _ (save_invitation-Keeps existing input by' now)) db h)

  pub send_invitation-Keeps :
      (created : CreatedInvitation) (by' : Option String) → Keeps (send_invitation p created by')
  unfolding send_invitation
  send_invitation-Keeps created by' = steady (λ db h. if_keeps (accepts_mail _) _ _ h h)

  pub invite-Keeps :
      (input : InvitationInput) (inviter : Option Inviter) (now : ℕ)
      → Keeps (invite p input inviter now)
  unfolding invite
  invite-Keeps input inviter now =
      bind-Keeps (create_invitation p input (Option.map (λ i. i.id) inviter) now) _
        (create_invitation-Keeps input (Option.map (λ i. i.id) inviter) now)
        λ created.
          bind-Keeps (send_invitation p created (Option.map (λ i. i.name) inviter)) _
            (send_invitation-Keeps created (Option.map (λ i. i.name) inviter))
            λ x. pure-Keeps created

  pub accept_account-Keeps :
      (token hash : String) (name : Option String) (now : ℕ)
      → Keeps (accept_account p token hash name now)
  unfolding accept_account
  accept_account-Keeps token hash name now =
      bind-Keeps (consume p token invitation now) _ (consume-Keeps token invitation now) λ u.
        bind-Keeps (throw_if (not (is_invited u.status)) (bad_request (invalid_link ∷ []))) _
          (throw_if-Keeps (not (is_invited u.status)) (bad_request (invalid_link ∷ [])))
          λ x. updated-Keeps u.id (accepted_user hash name now)
