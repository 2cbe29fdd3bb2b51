-- ===== src/Canonical/Slugs/Digits.antt =====
-- Proofs about decimal numbers and numbered names: different numbers give different names.
use Prim.Native.Char.{code}
use Prim.Native.String.{◌++◌ as append, char_at, [] as empty, ◌∷◌ as cons}
use Prim.Native.String.append
use tmx_assessment.Prelude.{
  ℕ, zero, suc, ◌+◌, ◌*◌, ◌/◌, ◌%◌, ◌-◌, ◌≤◌, ◌<◌, ◌≡◌, refl, sym, ap, ◌∙◌, arith, String, true,
  false, ltb, inl, inr, Bool-cases,
}
use text.Mathlib.TextLemmas.{tail-eq_of_cons-eq}
use tmx_assessment.Canonical.Questions.{nat_text, digits, digit}
use tmx_assessment.Canonical.Slugs.{numbered}

-- The number that decimal digits denote, after those read so far.
abbrev value : ℕ → String → ℕ
value n empty = n
value n (cons c s) = value (n * 10 + (code c - 48)) s

value-append : (n : ℕ) (s t : String) → value n (append s t) ≡ value (value n s) t
value-append n empty t = rw (append.nil t) refl
value-append n (cons c s) t = rw (append.cons c s t) (value-append (n * 10 + (code c - 48)) s t)

digit_code : (m : ℕ) → m < 10 → code (char_at "0123456789" m) - 48 ≡ m
digit_code zero h = refl
digit_code (suc zero) h = refl
digit_code (suc (suc zero)) h = refl
digit_code (suc (suc (suc zero))) h = refl
digit_code (suc (suc (suc (suc zero)))) h = refl
digit_code (suc (suc (suc (suc (suc zero))))) h = refl
digit_code (suc (suc (suc (suc (suc (suc zero)))))) h = refl
digit_code (suc (suc (suc (suc (suc (suc (suc zero))))))) h = refl
digit_code (suc (suc (suc (suc (suc (suc (suc (suc zero)))))))) h = refl
digit_code (suc (suc (suc (suc (suc (suc (suc (suc (suc zero))))))))) h = refl
digit_code (suc (suc (suc (suc (suc (suc (suc (suc (suc (suc m)))))))))) h = omega arith

value-digit : (k n : ℕ) → value k (digit n) ≡ k * 10 + n % 10
value-digit k n = rw (digit_code (n % 10) (omega arith)) refl

last-digit : (n : ℕ) → ltb n 10 ≡ true → value 0 (digit n) ≡ n
last-digit n e = let small : n < 10 = ground arith in omega (arith, value-digit 0 n)

with-last : (n : ℕ) → value (n / 10) (digit n) ≡ n
with-last n = omega (arith, value-digit (n / 10) n)

shorter : (n fuel : ℕ) → ltb n 10 ≡ false → n < suc fuel → n / 10 < fuel
shorter n fuel e h = let large : 10 ≤ n = ground arith in omega arith

value-digits : (fuel n : ℕ) → n < fuel → value 0 (digits fuel n) ≡ n
value-digits zero n h = omega arith
value-digits (suc fuel) n h = elim (Bool-cases (ltb n 10)) [
  | inl e ↦ rw e (last-digit n e)
  | inr e ↦
      rw (e, value-append 0 (digits fuel (n / 10)) (digit n))
        (rw (value-digits fuel (n / 10) (shorter n fuel e h)) (with-last n))
]

value-nat_text : (n : ℕ) → value 0 (nat_text n) ≡ n
unfolding nat_text
value-nat_text n = value-digits (suc n) n (omega arith)

append_cancel : (s t u : String) → append s t ≡ append s u → t ≡ u
append_cancel empty t u e = sym (append.nil t) ∙ e ∙ append.nil u
append_cancel (cons c s) t u e =
    append_cancel s t u (tail-eq_of_cons-eq (sym (append.cons c s t) ∙ e ∙ append.cons c s u))

pub numbered_inj : (base : String) (m n : ℕ) → numbered base m ≡ numbered base n → m ≡ n
unfolding numbered
numbered_inj base m n e =
    sym (value-nat_text m)
    ∙ ap (value 0) (append_cancel "-" _ _ (append_cancel base _ _ e))
    ∙ value-nat_text n
