-- ===== src/Take/Office.antt =====
-- assessment-invitations.service.ts and candidates.service.ts: the rows of candidates and links, and what
-- sending a test reads and writes. The database joins a link with its candidate; the store keeps the name
-- with the link.
use Prim.Native.String.{◌++◌ as append}
use tmx_assessment.Prelude.{
  ℕ, suc, ◌+◌, ◌*◌, String, Bool, true, false, ◌&&◌, not, ltb, Option, none, some, List, [], ◌∷◌,
  map, filter, find?, any, if◌then◌else◌,
}
use tmx_assessment.Prelude.Text.{◌===◌}
use tmx_assessment.Float.{Float}
use tmx_assessment.Schema.{AssessmentStatus, draft, published, archived, not_started, AssessmentRow}
use tmx_assessment.Http.{
  HttpError, not_found, conflict, ok, err, Action, pure, gets, found_or, ◌>>=◌,
}
use tmx_assessment.Canonical.Snapshot.{build_snapshot}
use tmx_assessment.Canonical.Mapper.{publish_problems}
use tmx_assessment.Edit.Store.{Library, content, find_test}
use tmx_assessment.Take.Store.{Attempt, Invitation, Store, update_many}
use tmx_assessment.Take.Results.{AttemptResult}
use tmx_assessment.Take.Status.{is_finished, InvitationStatus}

abbrev pub default_expiry_days : ℕ
default_expiry_days = 14

abbrev pub day : ℕ
day = 86_400_000

abbrev pub days_from : ℕ → ℕ → ℕ
days_from now days = now + days * day

pub record Candidate : Type 0 where
  pub id : String
  pub name : String
  pub email : String

pub record AssessmentMail : Type 0 where
  pub email : String
  pub name : String
  pub tests : List (String × ℕ)
  pub start_url : String
  pub expires_at : ℕ
  pub message : Option String
  pub sent_by_name : Option String

-- What comes from outside: random tokens and row ids, the hash of a token, the address of a link, and
-- whether the mail server takes a message.
pub record LinkPlatform : Type 1 where
  pub Source : Type 0
  pub token : Source → String × Source
  pub row_id : Source → String × Source
  pub hash_token : String → String
  pub link : String → String
  pub accepts_mail : AssessmentMail → Bool

pub record Office (F R Source : Type 0) : Type 0 where
  pub store : Store F R
  pub library : Library F
  pub candidates : List Candidate
  pub mails : List AssessmentMail
  pub source : Source

-- CreateAssessmentInvitationDto
pub record LinkInput : Type 0 where
  pub candidate_id : Option String
  pub candidate : Option (String × String)
  pub assessment_ids : List String
  pub expires_in_days : Option ℕ
  pub message : Option String

pub record LinkDetail (F : Type 0) : Type 0 where
  pub invitation : Invitation
  pub status : InvitationStatus
  pub attempts : List (AttemptResult F)

pub record SentLink (F : Type 0) : Type 0 where
  pub detail : LinkDetail F
  pub link : String
  pub email_sent : Bool

abbrev pub is_some {ℓ} : {A : Type ℓ} → Option A → Bool
is_some none = false
is_some (some a) = true

abbrev pub same_bool : Bool → Bool → Bool
same_bool true b = b
same_bool false b = not b

abbrev pub invitation_not_found : HttpError
invitation_not_found = not_found "That invitation doesn’t exist."

abbrev pub find_invitation : String → List Invitation → Option Invitation
find_invitation id invitations = find? (λ i. i.id === id) invitations

abbrev pub is_revoked : Invitation → Bool
is_revoked i = is_some i.revoked_at

-- The days that staff ask for; none is 0, which the code treats alike.
abbrev pub asked_days : Option ℕ → ℕ
asked_days none = 0
asked_days (some days) = days

-- `new Date(...) > now` or the default, and the days that staff ask for first
unfoldable pub new_expiry : Option ℕ → ℕ → ℕ → ℕ
new_expiry days expires_at now =
    if ltb 0 (asked_days days)
    then days_from now (asked_days days)
    else if ltb now expires_at
    then expires_at
    else days_from now default_expiry_days

abbrev pub status_text : AssessmentStatus → String
status_text draft = "a draft"
status_text published = "published"
status_text archived = "archived"

-- Why a test cannot be sent.
unfoldable pub send_problems : {F : Type 0} → AssessmentRow F → List String
unfolding publish_problems
send_problems c = elim c.status [
  | published ↦ map (λ problem. append c.name (append ": " problem)) (publish_problems c)
  | other ↦
      append c.name (append " is " (append (status_text other) ". Publish it before sending.")) ∷ []
]

abbrev pub or_days : Option ℕ → ℕ
or_days none = default_expiry_days
or_days (some days) = days

abbrev pub renamed : String → Candidate → Candidate
renamed name c = record c { name = name }

abbrev pub relinked : String → ℕ → Invitation → Invitation
relinked token_hash expires_at i = record i { token_hash = token_hash; expires_at = expires_at }

abbrev pub still_open_message : String → String → String
still_open_message name test = append name (
    append " already has "
      (append test " in a link that’s still open. Resend that link from the Sent tab instead."))

abbrev pub email_of : String → List Candidate → String
email_of id candidates = elim (find? (λ c. c.id === id) candidates) [ none ↦ "" | some c ↦ c.email ]

module _ {F : Type 0} where
  abbrev pub attempt_before : Attempt F → Attempt F → Bool
  attempt_before a b = ltb a.order b.order

  -- An attempt of the candidate at one of the tests, not finished, in a link that is still open.
  abbrev pub in_open_link : String → ℕ → List Invitation → Attempt F → Bool
  in_open_link candidate_id now invitations a =
      any
        (λ i.
          i.id === a.invitation_id
          && i.candidate_id === candidate_id
          && not (is_revoked i)
          && ltb now i.expires_at)
        invitations

  abbrev pub test_name : String → Library F → String
  test_name id library = elim (find_test id library) [ none ↦ "" | some test ↦ test.name ]

module _ {F R : Type 0} where
  abbrev pub rename_links : String → String → Store F R → Store F R
  rename_links id name s = record s {
    invitations =
        update_many (λ i. i.candidate_id === id) (λ i. record i { candidate_name = name })
          s.invitations;
  }

  unfoldable pub find_open : List String → String → ℕ → Store F R → Option (Attempt F)
  unfolding is_finished
  find_open ids candidate_id now s =
      find?
        (λ a.
          any (λ id. id === a.assessment_id) ids
          && not (is_finished a.status)
          && in_open_link candidate_id now s.invitations a)
        s.attempts

module _ {F R Source : Type 0} where
  abbrev pub in_store : (Store F R → Store F R) → Office F R Source → Office F R Source
  in_store f o = record o { store = f o.store }

  abbrev pub attempts_in : String → Office F R Source → List (Attempt F)
  attempts_in id o = filter (λ a. a.invitation_id === id) o.store.attempts

  -- `contents`: the tests in the order of their ids
  unfoldable pub contents : List String → Action (Office F R Source) (List (AssessmentRow F))
  unfolding content
  contents [] = pure []
  contents (id ∷ ids) = do
    read ← gets (λ o. (content id o.library).0)
    c ← (λ o. (read, o))
    rest ← contents ids
    pure (c ∷ rest)

  -- CandidatesService.get and upsert
  unfoldable pub get_candidate : String → Action (Office F R Source) Candidate
  get_candidate id = do
    found ← gets (λ o. find? (λ c. c.id === id) o.candidates)
    found_or (not_found "That candidate doesn’t exist.") found

  -- Refuses a test that the candidate has in an open link.
  unfoldable pub assert_not_open :
      List String → Candidate → ℕ → Action (Office F R Source) (Unit {0})
  unfolding find_open
  assert_not_open ids candidate now o = elim (find_open ids candidate.id now o.store) [
    | none ↦ (ok tt, o)
    | some a ↦ (
      err (conflict (still_open_message candidate.name (test_name a.assessment_id o.library))),
      o,
    )
  ]

module _ (fl : Float) (pl : LinkPlatform) where
  open fl use {F}
  open pl use {Source, row_id}

  -- A frozen test in a link; the row ids are drawn one after another.
  unfoldable pub new_attempt : String → String → ℕ → AssessmentRow F → Attempt F
  unfolding build_snapshot
  new_attempt id invitation_id order c = record {
    id = id;
    invitation_id = invitation_id;
    assessment_id = c.id;
    order = order;
    snapshot = build_snapshot fl c;
    status = not_started;
    started_at = none;
    deadline_at = none;
    finished_at = none;
    layout = none;
    score = none;
    band_label = none;
    correct_count = none;
    question_count = none;
    section_scores = [];
    flags = [];
    time_taken_seconds = none;
  }

  unfoldable pub new_attempts :
      String → ℕ → List (AssessmentRow F) → Source → List (Attempt F) × Source
  unfolding new_attempt
  new_attempts invitation_id order [] source = ([], source)
  new_attempts invitation_id order (c ∷ cs) source =
      let rest : List (Attempt F) × Source =
        new_attempts invitation_id (suc order) cs (row_id source).1 in
      (new_attempt (row_id source).0 invitation_id order c ∷ rest.0, rest.1)
