-- ===== src/Canonical/Slugs/Fresh.antt =====
-- Proofs about the loops that look for a free name: they end, since among as many numbered names as there
-- are taken ones and one more, one is free.
use tmx_assessment.Prelude.{
  ℕ, zero, suc, ◌≤◌, ◌≡◌, refl, sym, ap, ◌∙◌, arith, String, true, false, List, [], ◌∷◌, length,
  All, inl, inr, Bool-cases,
}
use tmx_assessment.Prelude.Text.{eq_iff}
use tmx_assessment.Prelude.Names.{occurs, times, pigeonhole}
use tmx_assessment.Canonical.Slugs.{numbered, is_used, first_numbered, first_free}
use tmx_assessment.Canonical.Slugs.Digits.{numbered_inj}

-- `base-n` and those after it
abbrev series : String → ℕ → ℕ → List String
series base n zero = []
series base n (suc k) = numbered base n ∷ series base (suc n) k

length-series : (base : String) (n k : ℕ) → length (series base n k) ≡ k
length-series base n zero = refl
length-series base n (suc k) = ap suc (length-series base (suc n) k)

series_later :
    (base : String) (m n k : ℕ) → suc m ≤ n → times (numbered base m) (series base n k) ≡ 0
series_later base m n zero h = refl
series_later base m n (suc k) h = ground (
  arith,
  eq_iff (numbered base n) (numbered base m),
  numbered_inj base n m,
  series_later base m (suc n) k (omega (arith, h)),
)

series_once : (base i : String) (n k : ℕ) → times i (series base n k) ≤ 1
series_once base i n zero = omega arith
series_once base i n (suc k) =
    let here : numbered base n ≡ i → times i (series base (suc n) k) ≡ 0 =
      λ e. rw (← e) (series_later base n (suc n) k (omega arith)) in
    ground (arith, eq_iff (numbered base n) i, here, series_once base i (suc n) k)

goes_on :
    (fuel : ℕ) (taken : List String) (base : String) (n : ℕ)
    → is_used taken (numbered base n) ≡ true
    → first_numbered (suc fuel) taken base n ≡ first_numbered fuel taken base (suc n)
unfolding first_numbered
goes_on fuel taken base n e = rw e refl

stops :
    (fuel : ℕ) (taken : List String) (base : String) (n : ℕ)
    → is_used taken (numbered base n) ≡ false
    → first_numbered (suc fuel) taken base n ≡ numbered base n
unfolding first_numbered
stops fuel taken base n e = rw e refl

absurd {ℓ} : {A : Type ℓ} → false ≡ true → A
absurd e = ground arith

-- When the loop ends on a name that is taken, all that it tried are.
All-taken :
    (fuel : ℕ) (taken : List String) (base : String) (n : ℕ)
    → is_used taken (first_numbered fuel taken base n) ≡ true
    → All (λ x. occurs x taken ≡ true) (series base n (suc fuel))
unfolding first_numbered
All-taken zero taken base n h = (h, tt)
All-taken (suc fuel) taken base n h = elim (Bool-cases (is_used taken (numbered base n))) [
  | inl e ↦ (e, All-taken fuel taken base (suc n) (rw (← goes_on fuel taken base n e) h))
  | inr e ↦ absurd (sym e ∙ rw (← stops fuel taken base n e) h)
]

first_numbered-IsFree :
    (taken : List String) (base : String) (n : ℕ)
    → is_used taken (first_numbered (length taken) taken base n) ≡ false
first_numbered-IsFree taken base n =
    elim (Bool-cases (is_used taken (first_numbered (length taken) taken base n))) [
      | inl e ↦
          let too_many : suc (length taken) ≤ length taken = omega (
            arith,
            length-series base n (suc (length taken)),
            pigeonhole (series base n (suc (length taken))) taken
                (λ i. series_once base i n (suc (length taken)))
                (All-taken (length taken) taken base n e),
          ) in
          ground (arith, too_many)
      | inr e ↦ e
    ]

-- The loop ends within as many rounds as names are taken, with a name that is free.
pub first_free-IsFree :
    (taken : List String) (base : String) → is_used taken (first_free taken base) ≡ false
unfolding first_free
first_free-IsFree taken base = elim (Bool-cases (is_used taken base)) [
  | inl e ↦ rw e (first_numbered-IsFree taken base 2)
  | inr e ↦ rw e e
]
