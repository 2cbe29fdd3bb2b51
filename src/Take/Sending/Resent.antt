-- ===== src/Take/Sending/Resent.antt =====
-- Proofs about `resend` of assessment-invitations.service.ts: the fresh link works, and the old one does not.
use tmx_assessment.Prelude.{
  ℕ, ◌≤◌, ◌≡◌, refl, sym, ap, subst, ◌∙◌, arith, String, Bool, true, false, ◌&&◌, not, ltb, Option,
  none, some, List, [], ◌∷◌, ◌++◌, map, find?, all, count_if, ◌⊎◌, inl, inr, Bool-cases,
  Option-cases, if◌then◌else◌,
}
use tmx_assessment.Prelude.Text.{◌===◌, eq_iff, eq_refl}
use tmx_assessment.Prelude.Sort.{sort}
use tmx_assessment.Prelude.Counting.{
  count_if-map, count_if_ext, count_if_apart, count_if_le, find?_first, find?_later, find?_passes,
}
use tmx_assessment.Schema.{expired, is_in_progress}
use tmx_assessment.Float.{Float}
use tmx_assessment.Http.{not_found, ok, err}
use tmx_assessment.Take.Store.{Attempt, Invitation, Store, update_many, find_attempt}
use tmx_assessment.Take.Attempts.{finish, finish_all, finalize_overdue, overdue_ids}
use tmx_assessment.Take.Guard.{is_token, can_activate, unrevoked, invalid_take_link}
use tmx_assessment.Take.Links.{can_activate_iff}
use tmx_assessment.Take.Status.{is_finished, invitation_status}
use tmx_assessment.Take.Office.{
  LinkPlatform, attempt_before, Office, SentLink, LinkDetail, find_invitation, is_revoked,
  new_expiry, relinked, attempts_in, in_store, or_days,
}
use tmx_assessment.Take.Sending.{
  result_in, marked_sent, mail_of, resend_link, send_and_show, send_email, record_mail, detail,
  relink, draw,
}

abbrev has_hash : String → Invitation → Bool
has_hash h i = i.token_hash === h

abbrev has_id : String → Invitation → Bool
has_id id i = i.id === id

abbrev mark : String → ℕ → Invitation → Invitation
mark id now i = if has_id id i then record i { sent_at = some now } else i

-- The first with an id counts among those with what else holds of it.
found_both :
    (id h : String) (xs : List Invitation) (i : Invitation)
    → find_invitation id xs ≡ some i
    → has_hash h i ≡ true
    → 1 ≤ count_if (λ x. has_id id x && has_hash h x) xs
found_both id h [] i f e = ground arith
found_both id h (x ∷ xs) i f e = elim (Bool-cases (has_id id x)) [
  | inl g ↦ ground arith
  | inr g ↦ ground (arith, found_both id h xs i)
]

-- After the link gets another hash, none has the old one.
old_hash_gone :
    (id old new : String) (expires : ℕ) (xs : List Invitation) (i : Invitation)
    → find_invitation id xs ≡ some i
    → has_hash old i ≡ true
    → count_if (has_hash old) xs ≤ 1
    → (new === old) ≡ false
    → count_if (has_hash old) (update_many (has_id id) (relinked new expires) xs) ≡ 0
old_hash_gone id old new expires xs i f e u n = omega (
  arith,
  found_both id old xs i f e,
  count_if_apart (λ x. has_id id x && has_hash old x) (λ x. not (has_id id x) && has_hash old x)
      (has_hash old) xs (λ x. ground arith) (λ x. ground arith) (λ x. ground arith),
  count_if-map (has_hash old) (λ x. if has_id id x then relinked new expires x else x) xs,
  count_if_le (λ x. has_hash old (if has_id id x then relinked new expires x else x))
      (λ x. not (has_id id x) && has_hash old x) xs (λ x. ground (arith, n)),
)

-- The fresh hash finds the link.
new_hash_found :
    (id new : String) (expires : ℕ) (xs : List Invitation) (i : Invitation)
    → find_invitation id xs ≡ some i
    → count_if (has_hash new) xs ≡ 0
    → find? (has_hash new) (update_many (has_id id) (relinked new expires) xs)
      ≡ some (relinked new expires i)
new_hash_found id new expires [] i f u = ground arith
new_hash_found id new expires (x ∷ xs) i f u = elim (Bool-cases (has_id id x)) [
  | inl g ↦
      rw (g, eq_refl new)
        (ap (λ y. some (relinked new expires y)) (find?_first (has_id id) x xs i g f))
  | inr g ↦
      let other : has_hash new x ≡ false = ground arith in
      rw (g, other)
        (new_hash_found id new expires xs i (find?_later (has_id id) x xs i g f) (ground arith))
]

find_relinked :
    (id new : String) (expires : ℕ) (xs : List Invitation) (i : Invitation)
    → find_invitation id xs ≡ some i
    → find_invitation id (update_many (has_id id) (relinked new expires) xs)
      ≡ some (relinked new expires i)
find_relinked id new expires [] i f = ground arith
find_relinked id new expires (x ∷ xs) i f = ground (arith, find_relinked id new expires xs i)

find_marked :
    (p : Invitation → Bool) (id : String) (now : ℕ) (xs : List Invitation) (i : Invitation)
    → ((x : Invitation) → p (mark id now x) ≡ p x)
    → find? p xs ≡ some i
    → find? p (map (mark id now) xs) ≡ some (mark id now i)
find_marked p id now [] i h f = ground arith
find_marked p id now (x ∷ xs) i h f = elim (Bool-cases (p x)) [
  | inl g ↦ rw (h x, g) (ap (λ y. some (mark id now y)) (find?_first p x xs i g f))
  | inr g ↦ rw (h x, g) (find_marked p id now xs i h (find?_later p x xs i g f))
]

module _ (fl : Float) {R : Type 0} where
  open fl use {F}

  finish_invitations :
      (id : String) (now : ℕ) (s : Store F R)
      → (finish fl id expired now s).invitations ≡ s.invitations
  unfolding finish
  finish_invitations id now s = elim (Option-cases (find_attempt id s.attempts)) [
    | inl e ↦ rw (e, finish) refl
    | inr (a, e) ↦ elim (Bool-cases (is_in_progress a.status)) [
      | inl f ↦ rw (e, f, finish) refl
      | inr f ↦ rw (e, f, finish) refl
    ]
  ]

  finish_all_invitations :
      (ids : List String) (now : ℕ) (s : Store F R)
      → (finish_all fl ids now s).invitations ≡ s.invitations
  unfolding finish_all
  finish_all_invitations [] now s = refl
  finish_all_invitations (id ∷ ids) now s =
      finish_all_invitations ids now (finish fl id expired now s) ∙ finish_invitations id now s

  sweep_invitations :
      (id : Option String) (now : ℕ) (s : Store F R)
      → (finalize_overdue fl id now s).invitations ≡ s.invitations
  unfolding finalize_overdue
  sweep_invitations id now s = finish_all_invitations (overdue_ids id now s.attempts) now s

abbrev AreKept : String → ℕ → List Invitation → List Invitation → Type 0
AreKept id now xs ys = (ys ≡ xs) ⊎ (ys ≡ map (mark id now) xs)

still_found :
    (id : String) (now : ℕ) (xs ys : List Invitation) (i : Invitation)
    → find_invitation id xs ≡ some i
    → AreKept id now xs ys
    → (j : Invitation) × (find_invitation id ys ≡ some j)
still_found id now xs ys i f (inl e) = (i, rw e f)
still_found id now xs ys i f (inr e) =
    (mark id now i, rw e (find_marked (has_id id) id now xs i (λ x. ground arith) f))

kept_count :
    (h id : String) (now : ℕ) (xs ys : List Invitation)
    → AreKept id now xs ys
    → count_if (has_hash h) ys ≡ count_if (has_hash h) xs
kept_count h id now xs ys (inl e) = rw e refl
kept_count h id now xs ys (inr e) =
    rw (e, count_if-map (has_hash h) (mark id now) xs)
      (count_if_ext (λ x. has_hash h (mark id now x)) (has_hash h) xs (λ x. ground arith))

-- What the guard reads of a link.
abbrev IsAlike : Invitation → Invitation → Type 0
IsAlike i j = (j.id ≡ i.id) × (j.revoked_at ≡ i.revoked_at) × (j.expires_at ≡ i.expires_at)

marked-IsAlike : (id : String) (now : ℕ) (i : Invitation) → IsAlike i (mark id now i)
marked-IsAlike id now i = ground arith

kept_find :
    (h id : String) (now : ℕ) (xs ys : List Invitation) (i : Invitation)
    → find? (has_hash h) xs ≡ some i
    → AreKept id now xs ys
    → (j : Invitation) × (find? (has_hash h) ys ≡ some j) × IsAlike i j
kept_find h id now xs ys i f (inl e) = (i, rw e f, (refl, refl, refl))
kept_find h id now xs ys i f (inr e) = (
  mark id now i,
  rw e (find_marked (has_hash h) id now xs i (λ x. ground arith) f),
  marked-IsAlike id now i,
)

absent_find : (p : Invitation → Bool) (xs : List Invitation) → count_if p xs ≡ 0 → find? p xs ≡ none
absent_find p [] h = refl
absent_find p (x ∷ xs) h = ground (arith, absent_find p xs)

expires_later :
    (days : Option ℕ) (expires now : ℕ)
    → ltb 0 (or_days days) ≡ true
    → ltb now (new_expiry days expires now) ≡ true
unfolding new_expiry
expires_later none expires now h = ground arith
expires_later (some days) expires now h = ground arith

never_revoked : (i : Invitation) → is_revoked i ≡ false → i.revoked_at ≡ none
never_revoked i h = ground arith

guard_refuses :
    {F R : Type 0} (hash_token : String → String) (now : ℕ) (s : Store F R) (token : String)
    → count_if (has_hash (hash_token token)) s.invitations ≡ 0
    → can_activate hash_token now s token ≡ err (not_found invalid_take_link)
unfolding can_activate unrevoked
guard_refuses hash_token now s token h = elim (Bool-cases (is_token token)) [
  | inl e ↦ rw (e, absent_find (has_hash (hash_token token)) s.invitations h) refl
  | inr e ↦ rw e refl
]

other_hash :
    (new old : String) (xs : List Invitation)
    → count_if (has_hash new) xs ≡ 0
    → count_if (has_hash old) xs ≡ 1
    → (new === old) ≡ false
other_hash new old xs h k =
    let same : new ≡ old → 0 ≡ 1 = λ e. sym h ∙ ap (λ x. count_if (has_hash x) xs) e ∙ k in
    ground (arith, eq_iff new old, same)

module _ (fl : Float) {R : Type 0} (pl : LinkPlatform) where
  open fl use {F}
  open pl use {Source, token, hash_token, link, accepts_mail}

  send_email_result :
      (id url : String) (now : ℕ) (o : Office F R Source) (i : Invitation)
      → find_invitation id o.store.invitations ≡ some i
      → (b : Bool) × (p : Office F R Source) × (send_email fl pl id url now o ≡ (ok b, p))
        × AreKept id now o.store.invitations p.store.invitations
  unfolding send_email record_mail
  send_email_result id url now o i f = elim (Bool-cases (accepts_mail (mail_of fl pl i url o))) [
    | inl e ↦ (
      true,
      record o {
        mails = o.mails ++ mail_of fl pl i url o ∷ [];
        store = marked_sent fl pl id now o.store;
      },
      rw (f, e) refl,
      inr refl,
    )
    | inr e ↦ (false, o, rw (f, e) refl, inl refl)
  ]

  detail_result :
      (id : String) (now : ℕ) (o : Office F R Source) (i : Invitation)
      → find_invitation id o.store.invitations ≡ some i
      → (r : LinkDetail F) × (p : Office F R Source) × (detail fl pl id now o ≡ (ok r, p))
        × (p.store.invitations ≡ o.store.invitations)
  unfolding detail
  detail_result id now o i f =
      let p : Office F R Source = in_store (finalize_overdue fl (some id) now) o in
      let kept = sweep_invitations fl (some id) now o.store in
      let attempts : List (Attempt F) = sort attempt_before (attempts_in id p) in
      (
        record {
          invitation = i;
          status = invitation_status i.revoked_at i.expires_at (map (λ a. a.status) attempts) now;
          attempts = map (result_in p.store.answers) attempts;
        },
        p,
        rw (kept, f) refl,
        kept,
      )

  -- Sending the email and reading the link back keep the links, but for the mark of a sent one.
  send_and_show_result :
      (id fresh : String) (now : ℕ) (o : Office F R Source) (i : Invitation)
      → find_invitation id o.store.invitations ≡ some i
      → (r : SentLink F) × (p : Office F R Source) × (send_and_show fl pl id fresh now o
          ≡ (ok r, p))
        × AreKept id now o.store.invitations p.store.invitations
  unfolding send_and_show
  send_and_show_result id fresh now o i f =
      let (b, p, run, kept) = send_email_result id (link fresh) now o i f in
      let (j, g) = still_found id now o.store.invitations p.store.invitations i f kept in
      let (d, q, shown, same) = detail_result id now p j g in
      (
        record { detail = d; link = link fresh; email_sent = b },
        q,
        rw (run, shown) refl,
        subst (AreKept id now o.store.invitations) (sym same) kept,
      )

  -- A link that is not revoked and has a test to finish can be resent. Then no token of the old link is
  -- let in, and the fresh one opens the link. The hash of the old token belongs to this link alone, the
  -- fresh one is well-formed and its hash is new; days that are asked for are at least one.
  pub resend_link_replaces :
      (id : String) (days : Option ℕ) (now : ℕ) (o : Office F R Source) (i : Invitation)
      → find_invitation id o.store.invitations ≡ some i
      → is_revoked i ≡ false
      → all
          (λ a. is_finished a.status)
          (attempts_in id (in_store (finalize_overdue fl (some id) now) o))
        ≡ false
      → (ltb 0 (or_days days) ≡ true)
      → is_token (token o.source).0 ≡ true
      → count_if (has_hash (hash_token (token o.source).0)) o.store.invitations ≡ 0
      → count_if (has_hash i.token_hash) o.store.invitations ≡ 1
      → (r : SentLink F) × (p : Office F R Source) × (resend_link fl pl id days now o ≡ (ok r, p))
        × ((old : String) (later : ℕ)
            → hash_token old ≡ i.token_hash
            → can_activate hash_token later p.store old ≡ err (not_found invalid_take_link))
        × ((j : Invitation) × (j.id ≡ id)
            × (can_activate hash_token now p.store (token o.source).0 ≡ ok j))
  unfolding resend_link draw relink
  resend_link_replaces id days now o i f valid unfinished positive fresh_token fresh_hash own_hash =
      let fresh : String = (token o.source).0 in
      let kept = sweep_invitations fl (some id) now o.store in
      let s : Office F R Source = in_store (finalize_overdue fl (some id) now) o in
      let expires : ℕ = new_expiry days i.expires_at now in
      let t : Office F R Source = record s {
        store = relink fl pl id (hash_token fresh) expires s.store;
        source = (token o.source).1;
      } in
      let h : String = hash_token fresh in
      let xs : List Invitation = o.store.invitations in
      let ys : List Invitation = update_many (has_id id) (relinked h expires) xs in
      let written : t.store.invitations ≡ ys =
        ap (update_many (has_id id) (relinked h expires)) kept in
      let (r, p, run, same) =
        send_and_show_result id fresh now t (relinked h expires i)
          (rw written (find_relinked id h expires xs i f)) in
      let same' : AreKept id now ys p.store.invitations =
        subst (λ zs. AreKept id now zs p.store.invitations) written same in
      let gone : count_if (has_hash i.token_hash) p.store.invitations ≡ 0 =
        kept_count i.token_hash id now ys p.store.invitations same'
        ∙ old_hash_gone id i.token_hash h expires xs i f (eq_refl i.token_hash)
            (omega (arith, own_hash)) (other_hash h i.token_hash xs fresh_hash own_hash) in
      let (j, found, alike) =
        kept_find h id now ys p.store.invitations (relinked h expires i)
          (new_hash_found id h expires xs i f fresh_hash) same' in
      (
        r,
        p,
        rw (kept, f, valid, unfinished, run) refl,
        (λ old later e. guard_refuses hash_token later p.store old (rw e gone)),
        (
          j,
          alike.0 ∙ (eq_iff i.id id).0 (find?_passes (has_id id) xs i f),
          (can_activate_iff hash_token now p.store fresh j found).1 (
            fresh_token,
            alike.1 ∙ never_revoked i valid,
            inl (rw alike.2 (expires_later days i.expires_at now positive)),
          ),
        ),
      )
