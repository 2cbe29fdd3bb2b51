-- ===== src/Take/Swept.antt =====
-- Proofs about `finalizeOverdue` of attempts.service.ts: the sweep leaves no attempt behind.
use tmx_assessment.Prelude.{
  ℕ, ◌-◌, ◌≤◌, ◌≡◌, refl, ap, ◌∙◌, arith, String, Bool, true, false, ◌&&◌, not, Option, none, some,
  List, [], ◌∷◌, count_if, if◌then◌else◌, inl, inr, Bool-cases, Option-cases,
}
use tmx_assessment.Prelude.Text.{◌===◌, eq_iff, eq_refl}
use tmx_assessment.Prelude.Counting.{
  count_if-map, count_if_ext, count_if_le, count_if_bound, find?_first,
}
use tmx_assessment.Prelude.Names.{occurs, times, occurs_counted}
use tmx_assessment.Schema.{expired, is_in_progress}
use tmx_assessment.Float.{Float}
use tmx_assessment.Take.Store.{Attempt, Store, Closing, closed, close_attempt, find_attempt}
use tmx_assessment.Take.Attempts.{
  deadline_grace, ended_before, in_link, overdue_ids, closing, finish, finish_all, finalize_overdue,
}

module _ {F : Type 0} where
  abbrev pub has_id : String → Attempt F → Bool
  has_id id a = a.id === id

  -- What the query of the sweep looks for.
  abbrev pub is_left : Option String → ℕ → Attempt F → Bool
  is_left invitation now a =
      is_in_progress a.status
      && ended_before (now - deadline_grace) a.deadline_at
      && in_link invitation a

  abbrev is_missed : Option String → ℕ → List String → Attempt F → Bool
  is_missed invitation now ids a = is_left invitation now a && not (occurs a.id ids)

  -- The first with an id is the only one.
  not_running :
      (id : String) (xs : List (Attempt F)) (a : Attempt F)
      → find_attempt id xs ≡ some a
      → count_if (has_id id) xs ≤ 1
      → is_in_progress a.status ≡ false
      → count_if (λ x. has_id id x && is_in_progress x.status) xs ≡ 0
  not_running id [] a f u n = refl
  not_running id (x ∷ xs) a f u n = elim (Bool-cases (has_id id x)) [
    | inl e ↦
        let same = find?_first (has_id id) x xs a e f in
        let still : is_in_progress x.status ≡ false = ap (λ y. is_in_progress y.status) same ∙ n in
        ground (
          arith,
          u,
          still,
          count_if_le (λ x. has_id id x && is_in_progress x.status) (has_id id) xs
              (λ x. ground arith),
        )
    | inr e ↦ ground (arith, not_running id xs a)
  ]

  none_running :
      (id : String) (xs : List (Attempt F))
      → find_attempt id xs ≡ none
      → count_if (λ x. has_id id x && is_in_progress x.status) xs ≡ 0
  none_running id [] f = refl
  none_running id (x ∷ xs) f = ground (arith, none_running id xs)

  -- Who is not missed with one id more, and does not run with that id, is not missed without it.
  missed_fewer :
      (invitation : Option String) (now : ℕ) (id : String) (ids : List String)
      (xs : List (Attempt F))
      → count_if (is_missed invitation now (id ∷ ids)) xs ≡ 0
      → count_if (λ x. has_id id x && is_in_progress x.status) xs ≡ 0
      → count_if (is_missed invitation now ids) xs ≡ 0
  missed_fewer invitation now id ids xs h k = omega (
    arith,
    h,
    k,
    count_if_bound (is_missed invitation now ids) (is_missed invitation now (id ∷ ids))
        (λ x. has_id id x && is_in_progress x.status) xs
        (λ x. ground (arith, eq_iff x.id id, eq_iff id x.id)),
  )

  closed_fewer :
      (invitation : Option String) (now : ℕ) (id : String) (ids : List String) (c : Closing F)
      (xs : List (Attempt F))
      → c.status ≡ expired
      → count_if (is_missed invitation now (id ∷ ids)) xs ≡ 0
      → count_if (is_missed invitation now ids) (close_attempt id c xs) ≡ 0
  unfolding close_attempt
  closed_fewer invitation now id ids c xs e h = omega (
    arith,
    h,
    count_if-map (is_missed invitation now ids)
        (λ x. if has_id id x && is_in_progress x.status then closed c x else x) xs,
    count_if_le
        (λ x.
          is_missed invitation now ids
            (if has_id id x && is_in_progress x.status then closed c x else x))
        (is_missed invitation now (id ∷ ids)) xs
        (λ x. ground (arith, e, eq_iff x.id id, eq_iff id x.id)),
  )

  closed_ids :
      (i id : String) (c : Closing F) (xs : List (Attempt F))
      → count_if (has_id i) (close_attempt id c xs) ≡ count_if (has_id i) xs
  unfolding close_attempt
  closed_ids i id c xs =
      count_if-map (has_id i)
        (λ x. if has_id id x && is_in_progress x.status then closed c x else x) xs
      ∙ count_if_ext
          (λ x. has_id i (if has_id id x && is_in_progress x.status then closed c x else x))
          (has_id i) xs (λ x. ground arith)

  left_later :
      (invitation : Option String) (now : ℕ) (x : Attempt F) (xs : List (Attempt F))
      (ids : List String) (i : String)
      → times i (overdue_ids invitation now (x ∷ xs)) ≤ times i ids
      → times i (overdue_ids invitation now xs) ≤ times i ids
  left_later invitation now x xs ids i h = ground arith

  left_first :
      (invitation : Option String) (now : ℕ) (x : Attempt F) (xs : List (Attempt F))
      (ids : List String)
      → is_left invitation now x ≡ true
      → times x.id (overdue_ids invitation now (x ∷ xs)) ≤ times x.id ids
      → 1 ≤ times x.id ids
  left_first invitation now x xs ids e h = ground (arith, eq_refl x.id)

  -- The query finds every attempt that is left.
  none_missed :
      (invitation : Option String) (now : ℕ) (ids : List String) (xs : List (Attempt F))
      → ((i : String) → times i (overdue_ids invitation now xs) ≤ times i ids)
      → count_if (is_missed invitation now ids) xs ≡ 0
  none_missed invitation now ids [] h = refl
  none_missed invitation now ids (x ∷ xs) h = elim (Bool-cases (is_left invitation now x)) [
    | inl e ↦
        let first : 1 ≤ times x.id ids = left_first invitation now x xs ids e (h x.id) in
        let later =
          none_missed invitation now ids xs (λ i. left_later invitation now x xs ids i (h i)) in
        ground (arith, occurs_counted x.id ids first, later)
    | inr e ↦
        let later =
          none_missed invitation now ids xs (λ i. left_later invitation now x xs ids i (h i)) in
        ground (arith, e, later)
  ]

module _ (fl : Float) {R : Type 0} where
  open fl use {F}

  finish_fewer :
      (invitation : Option String) (now : ℕ) (id : String) (ids : List String) (s : Store F R)
      → ((i : String) → count_if (has_id i) s.attempts ≤ 1)
      → count_if (is_missed invitation now (id ∷ ids)) s.attempts ≡ 0
      → count_if (is_missed invitation now ids) (finish fl id expired now s).attempts ≡ 0
  unfolding closing finish
  finish_fewer invitation now id ids s u h = elim (Option-cases (find_attempt id s.attempts)) [
    | inl e ↦
        rw (e, finish)
          (missed_fewer invitation now id ids s.attempts h (none_running id s.attempts e))
    | inr (a, e) ↦ elim (Bool-cases (is_in_progress a.status)) [
      | inl f ↦
          rw (e, f, finish)
            (closed_fewer invitation now id ids (closing fl a s.answers expired now) s.attempts refl
              h)
      | inr f ↦
          rw (e, f, finish)
            (missed_fewer invitation now id ids s.attempts h
              (not_running id s.attempts a e (u id) f))
    ]
  ]

  finish_ids :
      (i id : String) (now : ℕ) (s : Store F R)
      → count_if (has_id i) (finish fl id expired now s).attempts ≡ count_if (has_id i) s.attempts
  unfolding finish
  finish_ids i id now s = elim (Option-cases (find_attempt id s.attempts)) [
    | inl e ↦ rw (e, finish) refl
    | inr (a, e) ↦ elim (Bool-cases (is_in_progress a.status)) [
      | inl f ↦ rw (e, f, finish) (closed_ids i id (closing fl a s.answers expired now) s.attempts)
      | inr f ↦ rw (e, f, finish) refl
    ]
  ]

  finish_all_fewer :
      (invitation : Option String) (now : ℕ) (ids : List String) (s : Store F R)
      → ((i : String) → count_if (has_id i) s.attempts ≤ 1)
      → count_if (is_missed invitation now ids) s.attempts ≡ 0
      → count_if (is_missed invitation now []) (finish_all fl ids now s).attempts ≡ 0
  unfolding finish_all
  finish_all_fewer invitation now [] s u h = h
  finish_all_fewer invitation now (id ∷ ids) s u h =
      finish_all_fewer invitation now ids (finish fl id expired now s)
        (λ i. rw (finish_ids i id now s) (u i)) (finish_fewer invitation now id ids s u h)

  -- After the sweep of a link, or of all, no attempt in it is in progress with its deadline and the grace
  -- period over. Attempt ids are unique.
  pub finalize_overdue_sweeps :
      (invitation : Option String) (now : ℕ) (s : Store F R)
      → ((i : String) → count_if (has_id i) s.attempts ≤ 1)
      → count_if (is_left invitation now) (finalize_overdue fl invitation now s).attempts ≡ 0
  unfolding finalize_overdue
  finalize_overdue_sweeps invitation now s u =
      let ids : List String = overdue_ids invitation now s.attempts in
      let none_left =
        finish_all_fewer invitation now ids s u
          (none_missed invitation now ids s.attempts (λ i. omega arith)) in
      omega (
        arith,
        none_left,
        count_if_le (is_left invitation now) (is_missed invitation now [])
            (finish_all fl ids now s).attempts (λ x. ground arith),
      )
