-- ===== src/Prelude/Permute.antt =====
-- What a reordering keeps.
use Prim.Native.Nat.{suc}
use mathlib.Core.Path.{◌≡◌, refl, ap, ◌∙◌}
use mathlib.Core.Bool.{Bool}
use mathlib.Core.Logic.{∥∥₁_elim}
use mathlib.Core.List.{List, Perm, Permᴰ}
use mathlib.Core.List.Perm
use native.Mathlib.Omega.{arith}
use native.Mathlib.Nat.{ℕ_set}
use tmx_assessment.Prelude.Lists.{length, count_if}

module _ {ℓ} {A : Type ℓ} where
  pub perm_of_eq : {xs ys : List A} → xs ≡ ys → Perm xs ys
  perm_of_eq {xs} e = rw (← e) (Perm.refl xs)

  count_if_permᴰ : (p : A → Bool) {xs ys : List A} → Permᴰ xs ys → count_if p xs ≡ count_if p ys
  count_if_permᴰ p Permᴰ.nil = refl
  count_if_permᴰ p (Permᴰ.cons e h) = ground (arith, e, count_if_permᴰ p h)
  count_if_permᴰ p (Permᴰ.swap e f) = ground (arith, e, f)
  count_if_permᴰ p (Permᴰ.trans h k) = count_if_permᴰ p h ∙ count_if_permᴰ p k

  pub count_if_perm : (p : A → Bool) {xs ys : List A} → Perm xs ys → count_if p xs ≡ count_if p ys
  count_if_perm p h = ∥∥₁_elim h (ℕ_set _ _) (count_if_permᴰ p)

  length_permᴰ : {xs ys : List A} → Permᴰ xs ys → length xs ≡ length ys
  length_permᴰ Permᴰ.nil = refl
  length_permᴰ (Permᴰ.cons e h) = ap suc (length_permᴰ h)
  length_permᴰ (Permᴰ.swap e f) = refl
  length_permᴰ (Permᴰ.trans h k) = length_permᴰ h ∙ length_permᴰ k

  pub length_perm : {xs ys : List A} → Perm xs ys → length xs ≡ length ys
  length_perm h = ∥∥₁_elim h (ℕ_set _ _) length_permᴰ
