-- ===== src/Take/Sending.antt =====
-- assessment-invitations.service.ts: the requests on links. A method runs at one instant, `now`.
pub mod Resent
use Prim.Native.String.{◌++◌ as append}
use tmx_assessment.Prelude.{
  ℕ, suc, ◌+◌, ◌*◌, String, Bool, true, false, ◌&&◌, ◌||◌, not, ltb, Option, none, some, List, [],
  ◌∷◌, ◌++◌, map, filter, find?, any, all, length, concat, if◌then◌else◌,
}
use tmx_assessment.Prelude.Text.{◌===◌}
use tmx_assessment.Prelude.Sort.{sort}
use tmx_assessment.Float.{Float}
use tmx_assessment.Schema.{AssessmentStatus, draft, published, archived, not_started, AssessmentRow}
use tmx_assessment.Http.{
  HttpError, bad_request, not_found, conflict, internal, Result, ok, err, Action, pure, throw, gets,
  found_or, modify, throw_if, done, ◌>>=◌, ◌>>◌,
}
use tmx_assessment.Canonical.Snapshot.{build_snapshot}
use tmx_assessment.Canonical.Mapper.{publish_problems}
use tmx_assessment.Edit.Store.{Library, content, find_test}
use tmx_assessment.Edit.Settings.{distinct}
use tmx_assessment.Take.Store.{Answer, Attempt, Invitation, Store, update_many}
use tmx_assessment.Take.Attempts.{finalize_overdue}
use tmx_assessment.Take.Results.{AttemptResult, attempt_result}
use tmx_assessment.Take.Status.{is_finished, InvitationStatus, invitation_status}
use tmx_assessment.Take.Office.{
  AssessmentMail, Candidate, LinkDetail, LinkInput, LinkPlatform, Office, SentLink, assert_not_open,
  attempt_before, attempts_in, contents, days_from, email_of, find_invitation, get_candidate,
  in_store, invitation_not_found, is_revoked, is_some, new_attempts, new_expiry, or_days, relinked,
  rename_links, renamed, same_bool, send_problems,
}

-- `attemptResult`, of an attempt with its answers
unfoldable pub result_in : {F : Type 0} → List Answer → Attempt F → AttemptResult F
unfolding attempt_result
result_in answers a = attempt_result a (filter (λ x. x.attempt_id === a.id) answers)

module _ (fl : Float) {R : Type 0} (pl : LinkPlatform) where
  open fl use {F}
  open pl use {Source, token, row_id, hash_token, link, accepts_mail}

  -- The next token or row id.
  unfoldable pub draw : (Source → String × Source) → Action (Office F R Source) String
  draw next o = (ok (next o.source).0, record o { source = (next o.source).1 })

  unfoldable pub upsert_candidate : String → String → Action (Office F R Source) Candidate
  unfolding draw
  upsert_candidate name email = do
    found ← gets (λ o. find? (λ c. c.email === email) o.candidates)
    elim found [
      | some c ↦ (do
        modify (λ o. record o {
          candidates = update_many (λ d. d.id === c.id) (renamed name) o.candidates;
          store = rename_links c.id name o.store;
        })
        pure (renamed name c))
      | none ↦ (do
        id ← draw row_id
        modify (λ o. record o {
          candidates = o.candidates ++ record { id = id; name = name; email = email } ∷ [];
        })
        pure (record { id = id; name = name; email = email }))
    ]

  unfoldable pub find_candidate : LinkInput → Action (Office F R Source) Candidate
  unfolding get_candidate upsert_candidate
  find_candidate input = elim input.candidate_id [
    | some id ↦ get_candidate id
    | none ↦ elim input.candidate [
      | none ↦ throw internal
      | some (name, email) ↦ upsert_candidate name email
    ]
  ]

  unfoldable pub insert_link :
      String
      → String
      → Candidate
      → Option String
      → LinkInput
      → ℕ
      → List (AssessmentRow F)
      → Office F R Source
      → Office F R Source
  unfolding new_attempts
  insert_link id token_hash candidate sender input now cs o = record o {
    store = record (o.store) {
      attempts = o.store.attempts ++ (new_attempts fl pl id 0 cs o.source).0;
      invitations =
          o.store.invitations
          ++ record {
            id = id;
            candidate_id = candidate.id;
            candidate_name = candidate.name;
            sent_by_name = sender;
            message = input.message;
            token_hash = token_hash;
            expires_at = days_from now (or_days input.expires_in_days);
            sent_at = none;
            last_opened_at = none;
            revoked_at = none;
          }
            ∷ [];
    };
    source = (new_attempts fl pl id 0 cs o.source).1;
  }

  unfoldable pub detail : String → ℕ → Action (Office F R Source) (LinkDetail F)
  unfolding finalize_overdue invitation_status sort result_in
  detail id now = do
    modify (in_store (finalize_overdue fl (some id) now))
    found ← gets (λ o. find_invitation id o.store.invitations)
    invitation ← found_or invitation_not_found found
    attempts ← gets (λ o. sort attempt_before (attempts_in id o))
    answers ← gets (λ o. o.store.answers)
    pure (record {
      invitation = invitation;
      status =
          invitation_status invitation.revoked_at invitation.expires_at
            (map (λ a. a.status) attempts) now;
      attempts = map (result_in answers) attempts;
    })

  unfoldable pub mail_of : Invitation → String → Office F R Source → AssessmentMail
  unfolding is_finished sort
  mail_of i url o = record {
    email = email_of i.candidate_id o.candidates;
    name = i.candidate_name;
    tests =
        map (λ a. (a.snapshot.name, a.snapshot.duration_minutes))
          (filter (λ a. not (is_finished a.status)) (sort attempt_before (attempts_in i.id o)));
    start_url = url;
    expires_at = i.expires_at;
    message = i.message;
    sent_by_name = i.sent_by_name;
  }

  abbrev pub marked_sent : String → ℕ → Store F R → Store F R
  marked_sent id now s = record s {
    invitations =
        update_many (λ i. i.id === id) (λ i. record i { sent_at = some now }) s.invitations;
  }

  unfoldable pub record_mail : String → AssessmentMail → ℕ → Action (Office F R Source) Bool
  record_mail id mail now = do
    modify (λ o. record o { mails = o.mails ++ mail ∷ []; store = marked_sent id now o.store })
    pure true

  unfoldable pub send_email : String → String → ℕ → Action (Office F R Source) Bool
  unfolding mail_of record_mail
  send_email id url now = do
    found ← gets (λ o. find_invitation id o.store.invitations)
    i ← found_or internal found
    mail ← gets (mail_of i url)
    (if accepts_mail mail then record_mail id mail now else pure false)

  -- The email, and the link as staff see it then.
  unfoldable pub send_and_show : String → String → ℕ → Action (Office F R Source) (SentLink F)
  unfolding send_email detail
  send_and_show id token now = do
    email_sent ← send_email id (link token) now
    shown ← detail id now
    pure (record { detail = shown; link = link token; email_sent = email_sent })

  unfoldable pub create_link :
      LinkInput → (sender : Option String) → ℕ → Action (Office F R Source) (SentLink F)
  unfolding distinct contents send_problems find_candidate assert_not_open draw insert_link
      send_and_show
  create_link input sender now = do
    throw_if (same_bool (is_some input.candidate_id) (is_some input.candidate))
        (bad_request ("Choose an existing candidate, or enter a new one’s name and email." ∷ []))
    cs ← contents (distinct input.assessment_ids)
    throw_if (ltb 0 (length (concat (map send_problems cs))))
        (bad_request (concat (map send_problems cs)))
    candidate ← find_candidate input
    assert_not_open (distinct input.assessment_ids) candidate now
    fresh ← draw token
    id ← draw row_id
    modify (insert_link id (hash_token fresh) candidate sender input now cs)
    send_and_show id fresh now

  unfoldable pub relink : String → String → ℕ → Store F R → Store F R
  relink id token_hash expires_at s = record s {
    invitations = update_many (λ i. i.id === id) (relinked token_hash expires_at) s.invitations;
  }

  unfoldable pub resend_link : String → Option ℕ → ℕ → Action (Office F R Source) (SentLink F)
  unfolding finalize_overdue is_finished new_expiry draw relink send_and_show
  resend_link id days now = do
    modify (in_store (finalize_overdue fl (some id) now))
    found ← gets (λ o. find_invitation id o.store.invitations)
    i ← found_or invitation_not_found found
    throw_if (is_revoked i) (conflict "This link was revoked. Send the tests again instead.")
    over ← gets (λ o. all (λ a. is_finished a.status) (attempts_in id o))
    throw_if over (conflict "The candidate has finished every test in this link.")
    fresh ← draw token
    modify (in_store (relink id (hash_token fresh) (new_expiry days i.expires_at now)))
    send_and_show id fresh now

  unfoldable pub revoke_in : String → ℕ → Store F R → Store F R
  revoke_in id now s = record s {
    invitations =
        update_many (λ i. i.id === id && not (is_revoked i))
          (λ i. record i { revoked_at = some now }) s.invitations;
  }

  unfoldable pub revoke_link : String → ℕ → Action (Office F R Source) (Unit {0})
  unfolding revoke_in
  revoke_link id now = do
    changed ← gets (λ o. any (λ i. i.id === id && not (is_revoked i)) o.store.invitations)
    modify (in_store (revoke_in id now))
    exists ← gets (λ o. any (λ i. i.id === id) o.store.invitations)
    throw_if (not changed && not exists) invitation_not_found
