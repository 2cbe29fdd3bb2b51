-- ===== src/Take/Traces.antt =====
-- The statements that requests and the overdue sweep send to the database, in any order: what can happen
-- to one attempt, whichever requests run at once.
use tmx_assessment.Prelude.{
  ℕ, zero, suc, ◌≡◌, refl, sym, subst, String, Bool, true, false, some, List, [], ◌∷◌, inl, inr,
  get_elem?, Bool-cases, arith, ◌&&◌, if◌then◌else◌,
}
use mathlib.Core.Option
use tmx_assessment.Prelude.Text.{◌===◌}
use tmx_assessment.Schema.{
  AttemptStatus, not_started, in_progress, submitted, expired, is_in_progress, is_not_started,
}
use tmx_assessment.Canonical.Layout.{AttemptLayout}
use tmx_assessment.Take.Store.{
  Attempt, Answer, Invitation, Store, Closing, opened, closed, open_attempt, close_attempt,
}
use tmx_assessment.Take.Status.{is_finished}

and_right : (x y : Bool) → x && y ≡ true → y ≡ true
and_right true y e = e
and_right false y e = cc

-- One statement. The overdue sweep and `finish` read before they write, but what they write says itself
-- on which rows it applies, so a statement that comes late does no harm.
pub data Statement {F R : Type 0} (s : Store F R) : Store F R → Type 0 where
  opening :
      (id : String) (now deadline : ℕ) (layout : AttemptLayout)
      → Statement s (record s { attempts = open_attempt id now deadline layout s.attempts })
  closing :
      (id : String) (c : Closing F)
      → is_finished c.status ≡ true
      → Statement s (record s { attempts = close_attempt id c s.attempts })
  saving : (answers : List Answer) → Statement s (record s { answers = answers })
  visiting : (invitations : List Invitation) → Statement s (record s { invitations = invitations })
  drawing : (random : R) → Statement s (record s { random = random })

pub data Statements {F R : Type 0} (s : Store F R) : Store F R → Type 0 where
  none_sent : Statements s s
  sent : {t u : Store F R} → Statements s t → Statement t u → Statements s u

-- What can happen to one attempt: it starts once, from not started, and it ends once, from in progress.
pub data Life {F : Type 0} (a : Attempt F) : Attempt F → Type 0 where
  same : Life a a
  started :
      {b : Attempt F} (now deadline : ℕ) (layout : AttemptLayout)
      → Life a b
      → is_not_started b.status ≡ true
      → Life a (opened now deadline layout b)
  ended :
      {b : Attempt F} (c : Closing F)
      → Life a b
      → is_in_progress b.status ≡ true
      → is_finished c.status ≡ true
      → Life a (closed c b)

Life-trans : {F : Type 0} {a b c : Attempt F} → Life a b → Life b c → Life a c
Life-trans h same = h
Life-trans h (started now deadline layout l e) = started now deadline layout (Life-trans h l) e
Life-trans h (ended c l e f) = ended c (Life-trans h l) e f

-- The attempts of two states, one by one in their places.
pub data Lives {F : Type 0} : List (Attempt F) → List (Attempt F) → Type 0 where
  all_done : Lives [] []
  alive :
      {a b : Attempt F} {as' bs : List (Attempt F)}
      → Life a b
      → Lives as' bs
      → Lives (a ∷ as') (b ∷ bs)

module _ {F : Type 0} where
  Lives-refl : (as' : List (Attempt F)) → Lives as' as'
  Lives-refl [] = all_done
  Lives-refl (a ∷ as') = alive same (Lives-refl as')

  Lives-trans : {as' bs cs : List (Attempt F)} → Lives as' bs → Lives bs cs → Lives as' cs
  Lives-trans all_done all_done = all_done
  Lives-trans (alive l ls) (alive m ms) = alive (Life-trans l m) (Lives-trans ls ms)

  opened_one :
      (id : String) (now deadline : ℕ) (layout : AttemptLayout) (a : Attempt F)
      → Life a (if a.id === id && is_not_started a.status then opened now deadline layout a else a)
  opened_one id now deadline layout a = elim (Bool-cases (a.id === id && is_not_started a.status)) [
    | inl e ↦ rw e (started now deadline layout same (and_right _ _ e))
    | inr e ↦ rw e same
  ]

  closed_one :
      (id : String) (c : Closing F) (a : Attempt F)
      → is_finished c.status ≡ true
      → Life a (if a.id === id && is_in_progress a.status then closed c a else a)
  closed_one id c a f = elim (Bool-cases (a.id === id && is_in_progress a.status)) [
    | inl e ↦ rw e (ended c same (and_right _ _ e) f)
    | inr e ↦ rw e same
  ]

  open_attempt-Lives :
      (id : String) (now deadline : ℕ) (layout : AttemptLayout) (as' : List (Attempt F))
      → Lives as' (open_attempt id now deadline layout as')
  unfolding open_attempt
  open_attempt-Lives id now deadline layout [] = all_done
  open_attempt-Lives id now deadline layout (a ∷ as') =
      alive (opened_one id now deadline layout a) (open_attempt-Lives id now deadline layout as')

  close_attempt-Lives :
      (id : String) (c : Closing F) (as' : List (Attempt F))
      → is_finished c.status ≡ true
      → Lives as' (close_attempt id c as')
  unfolding close_attempt
  close_attempt-Lives id c [] f = all_done
  close_attempt-Lives id c (a ∷ as') f =
      alive (closed_one id c a f) (close_attempt-Lives id c as' f)

module _ {F R : Type 0} where
  Statement-Lives : {s t : Store F R} → Statement s t → Lives s.attempts t.attempts
  Statement-Lives {s = s} (opening id now deadline layout) =
      open_attempt-Lives id now deadline layout s.attempts
  Statement-Lives {s = s} (closing id c f) = close_attempt-Lives id c s.attempts f
  Statement-Lives {s = s} (saving answers) = Lives-refl s.attempts
  Statement-Lives {s = s} (visiting invitations) = Lives-refl s.attempts
  Statement-Lives {s = s} (drawing random) = Lives-refl s.attempts

  -- Whatever statements run, in whatever order, each attempt stays in its place and lives by its life
  -- cycle: it starts at most once, from not started, and ends at most once, from in progress.
  pub Statements-Lives : {s t : Store F R} → Statements s t → Lives s.attempts t.attempts
  Statements-Lives {s = s} none_sent = Lives-refl s.attempts
  Statements-Lives (sent r w) = Lives-trans (Statements-Lives r) (Statement-Lives w)

finished_started :
    (status : AttemptStatus) → is_finished status ≡ true → is_not_started status ≡ false
unfolding is_finished
finished_started status f = ground arith

-- A status is one of three kinds.
not_started_not_finished {ℓ} :
    {P : Type ℓ} (status : AttemptStatus)
    → is_finished status ≡ true
    → is_not_started status ≡ true
    → P
unfolding is_finished
not_started_not_finished not_started f e = cc
not_started_not_finished in_progress f e = cc
not_started_not_finished submitted f e = cc
not_started_not_finished expired f e = cc

in_progress_not_finished {ℓ} :
    {P : Type ℓ} (status : AttemptStatus)
    → is_finished status ≡ true
    → is_in_progress status ≡ true
    → P
unfolding is_finished
in_progress_not_finished not_started f e = cc
in_progress_not_finished in_progress f e = cc
in_progress_not_finished submitted f e = cc
in_progress_not_finished expired f e = cc

module _ {F : Type 0} where
  -- A finished attempt has no other life ahead.
  Life-finished : {a b : Attempt F} → Life a b → is_finished a.status ≡ true → b ≡ a
  Life-finished same f = refl
  Life-finished (started {b = b} now deadline layout l e) f =
      not_started_not_finished b.status
        (subst (λ x. is_finished x.status ≡ true) (sym (Life-finished l f)) f) e
  Life-finished (ended {b = b} c l e g) f =
      in_progress_not_finished b.status
        (subst (λ x. is_finished x.status ≡ true) (sym (Life-finished l f)) f) e

  abbrev HasClock : Attempt F → Attempt F → Type 0
  HasClock a b =
      (is_not_started b.status ≡ false)
      × (b.started_at ≡ a.started_at)
      × (b.deadline_at ≡ a.deadline_at)
      × (b.layout ≡ a.layout)

  -- A started attempt keeps its start, its deadline and its layout.
  Life-clock : {a b : Attempt F} → Life a b → is_not_started a.status ≡ false → HasClock a b
  Life-clock same f = (f, refl, refl, refl)
  Life-clock (started now deadline layout l e) f = let kept = Life-clock l f in cc
  Life-clock (ended c l e g) f =
      let kept = Life-clock l f in (finished_started c.status g, kept.1, kept.2, kept.3)

  Lives-at :
      {as' bs : List (Attempt F)} {a : Attempt F} (i : ℕ)
      → Lives as' bs
      → get_elem? as' i ≡ some a
      → (b : Attempt F) × (get_elem? bs i ≡ some b) × Life a b
  Lives-at i all_done e = cc
  Lives-at zero (alive {a = a} {b = b} l ls) e =
      (b, refl, subst (λ x. Life x b) (Option.some_inj.0 e) l)
  Lives-at (suc i) (alive l ls) e = Lives-at i ls e

module _ {F R : Type 0} {s t : Store F R} where
  -- A finished attempt stays as it was, its result included, whatever statements run after it finished.
  pub finished_for_good :
      (i : ℕ) (a : Attempt F)
      → Statements s t
      → get_elem? s.attempts i ≡ some a
      → is_finished a.status ≡ true
      → get_elem? t.attempts i ≡ some a
  finished_for_good i a r e f =
      let (b, at', l) = Lives-at i (Statements-Lives r) e in
      subst (λ x. get_elem? t.attempts i ≡ some x) (Life-finished l f) at'

  -- An attempt that has started is found again after any statements, with the start, the deadline and
  -- the order of questions it got at first.
  pub clock_set_once :
      (i : ℕ) (a : Attempt F)
      → Statements s t
      → get_elem? s.attempts i ≡ some a
      → is_not_started a.status ≡ false
      → (b : Attempt F) × (get_elem? t.attempts i ≡ some b)
        × (is_not_started b.status ≡ false)
        × (b.started_at ≡ a.started_at)
        × (b.deadline_at ≡ a.deadline_at)
        × (b.layout ≡ a.layout)
  clock_set_once i a r e f =
      let (b, at', l) = Lives-at i (Statements-Lives r) e in
      let k = Life-clock l f in (b, at', k.0, k.1, k.2, k.3)
