-- ===== src/Canonical/Layout/Shuffle.antt =====
-- Proofs about `shuffled` of layout.ts.
use mathlib.Core.List.Perm
use tmx_assessment.Prelude.{
  ℕ, zero, suc, ◌-◌, ◌≡◌, refl, inl, inr, some, Option-cases, List, [], ◌∷◌, Perm, length,
  get_elem?, set,
}
use tmx_assessment.Canonical.Layout.{Random, swap, shuffle_from, shuffled}

module _ {ℓ} {A : Type ℓ} where
  -- Writing over an element is removing it and adding the new one.
  set-perm :
      (xs : List A) (i : ℕ) (a b : A) → get_elem? xs i ≡ some a → Perm (a ∷ set xs i b) (b ∷ xs)
  set-perm [] i a b h = cc
  set-perm (x ∷ xs) zero a b h = let e : x ≡ a = cc in rw e (Perm.swap b a xs)
  set-perm (x ∷ xs) (suc i) a b h =
      Perm.trans (Perm.swap x a (set xs i b))
        (Perm.trans (Perm.cons x (set-perm xs i a b h)) (Perm.swap b x xs))

  get-set_other :
      (xs : List A) (i j : ℕ) (a b : A)
      → get_elem? xs i ≡ some a
      → get_elem? xs j ≡ some b
      → get_elem? (set xs i b) j ≡ some b
  get-set_other [] i j a b h k = cc
  get-set_other (x ∷ xs) zero zero a b h k = refl
  get-set_other (x ∷ xs) zero (suc j) a b h k = k
  get-set_other (x ∷ xs) (suc i) zero a b h k = k
  get-set_other (x ∷ xs) (suc i) (suc j) a b h k = get-set_other xs i j a b h k

  pub swap-perm : (i j : ℕ) (xs : List A) → Perm (swap i j xs) xs
  unfolding swap
  swap-perm i j xs = elim (Option-cases (get_elem? xs i)) [
    | inl e ↦ rw (e, swap) (Perm.refl xs)
    | inr (a, e) ↦ elim (Option-cases (get_elem? xs j)) [
      | inl f ↦ rw (e, swap) (rw (f, swap) (Perm.refl xs))
      | inr (b, f) ↦
          rw (e, swap)
            (rw (f, swap)
              (Perm.cons_inv (
                Perm.trans (set-perm (set xs i b) j b a (get-set_other xs i j a b e f))
                  (set-perm xs i a b e))))
    ]
  ]

module _ {ℓ} {A : Type ℓ} (r : Random) where
  open r use {State, draw}

  shuffle_from-perm : (i : ℕ) (s : State) (xs : List A) → Perm (shuffle_from r i s xs).0 xs
  unfolding shuffle_from
  shuffle_from-perm zero s xs = Perm.refl xs
  shuffle_from-perm (suc i) s xs =
      let (j, s') = draw (suc (suc i)) s in
      Perm.trans (shuffle_from-perm i s' (swap (suc i) j xs)) (swap-perm (suc i) j xs)

  -- A shuffled list holds the same items, each as often, for every random source.
  pub shuffled-perm : (s : State) (xs : List A) → Perm (shuffled r s xs).0 xs
  unfolding shuffled
  shuffled-perm s xs = shuffle_from-perm (length xs - 1) s xs
