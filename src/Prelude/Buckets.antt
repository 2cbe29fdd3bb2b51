-- ===== src/Prelude/Buckets.antt =====
-- Sorting items into the buckets of a `Map` by key, with one bucket for items whose key is missing
-- or unknown: the loop that scoring and the layout share.
use mathlib.Core.List.{
  List, [], ◌∷◌, ◌++◌, map, Perm, perm_middle, append_assoc, append-nil, perm_append_singleton,
}
use mathlib.Core.List.Perm
use mathlib.Core.Option.{Option, none, some}
use mathlib.Core.Path.{◌≡◌, refl, sym, ap, ◌∙◌}
use mathlib.Core.Logic.{inl, inr}
use native.Mathlib.Omega.{arith}
use Prim.Native.String.{String}
use tmx_assessment.Prelude.Tests.{Bool-cases, Option-cases}
use tmx_assessment.Prelude.Lists.{concat}
use tmx_assessment.Prelude.Permute.{perm_of_eq}
use tmx_assessment.Prelude.Text.{◌===◌}
use tmx_assessment.Prelude.Dict.{Dict, get, set, values}

-- The buckets in the order of the `Map`, then the one for the rest.
abbrev pub all_values {ℓ} : {V : Type ℓ} → Dict V × V → List V
all_values (m, rest) = values m ++ rest ∷ []

module _ {ℓ κ} {V : Type ℓ} {A : Type κ} (push : V → A → V) (key : A → Option String) where
  -- `(bucket ?? rest).push(item)`, where the bucket is looked up if there is a key
  place : Dict V × V → A → Dict V × V
  unfolding get set
  place (m, rest) a = elim (key a) [
    | none ↦ (m, push rest a)
    | some k ↦ elim (get k m) [ none ↦ (m, push rest a) | some v ↦ (set k (push v a) m, rest) ]
  ]

  unfoldable pub place_all : Dict V × V → List A → Dict V × V
  unfolding place
  place_all s [] = s
  place_all s (a ∷ as') = place_all (place s a) as'

  module _ (contents : V → List A)
      (law : (v : V) (a : A) → contents (push v a) ≡ contents v ++ a ∷ []) where
    abbrev held : List V → List A
    held vs = concat (map contents vs)

    push-perm :
        (v : V) (a : A) (r : List A) → Perm (contents (push v a) ++ r) (a ∷ (contents v ++ r))
    push-perm v a r =
        Perm.trans
          (perm_of_eq
            (ap (λ (l : List A). l ++ r) (law v a) ∙ append_assoc (contents v) (a ∷ []) r))
          (perm_middle (contents v) r)

    held_set :
        (k : String) (a : A) (v : V) (m : Dict V)
        → get k m ≡ some v
        → Perm (held (values (set k (push v a) m))) (a ∷ held (values m))
    unfolding get set
    held_set k a v [] h = cc
    held_set k a v ((j, w) ∷ m) h = elim (Bool-cases (j === k)) [
      | inl e ↦ let same : w ≡ v = ground arith in rw (e, same) (push-perm v a (held (values m)))
      | inr e ↦ rw e (
          Perm.trans (Perm.append_left (contents w) (held_set k a v m (rw e at h)))
            (perm_middle (contents w) (held (values m))))
    ]

    held-append : (us vs : List V) → held (us ++ vs) ≡ held us ++ held vs
    held-append [] vs = refl
    held-append (u ∷ us) vs =
        ap (λ (l : List A). contents u ++ l) (held-append us vs)
        ∙ sym (append_assoc (contents u) (held us) (held vs))

    all_held_lem : (s : Dict V × V) → held (all_values s) ≡ held (values s.0) ++ contents s.1
    all_held_lem (m, rest) =
        held-append (values m) (rest ∷ [])
        ∙ ap (λ (l : List A). held (values m) ++ l) (append-nil (contents rest))

    place_rest :
        (m : Dict V) (rest : V) (a : A)
        → Perm (held (values m) ++ contents (push rest a)) (a ∷ (held (values m) ++ contents rest))
    place_rest m rest a =
        Perm.trans
          (Perm.append_left (held (values m))
            (Perm.trans (perm_of_eq (law rest a)) (perm_append_singleton a (contents rest))))
          (perm_middle (held (values m)) (contents rest))

    -- Placing an item adds it to what is held, and loses nothing.
    place-perm :
        (s : Dict V × V) (a : A)
        → Perm
            (held (values (place s a).0) ++ contents (place s a).1)
            (a ∷ (held (values s.0) ++ contents s.1))
    unfolding place
    place-perm (m, rest) a = elim (Option-cases (key a)) [
      | inl e ↦ rw (e, place) (place_rest m rest a)
      | inr (k, e) ↦ elim (Option-cases (get k m)) [
        | inl f ↦ rw (e, place) (rw (f, place) (place_rest m rest a))
        | inr (v, f) ↦
            rw (e, place) (rw (f, place) (Perm.append_right (contents rest) (held_set k a v m f)))
      ]
    ]

    abbrev flat : Dict V × V → List A
    flat s = held (values s.0) ++ contents s.1

    flat_place_all :
        (s : Dict V × V) (items : List A) → Perm (flat (place_all s items)) (flat s ++ items)
    unfolding place_all
    flat_place_all s [] = perm_of_eq (sym (append-nil (flat s)))
    flat_place_all s (a ∷ more) = Perm.trans (flat_place_all (place s a) more) (
        Perm.trans (Perm.append_right more (place-perm s a))
          (Perm.symm (perm_middle (flat s) more)))

    -- Every item ends in exactly one bucket, beside what the buckets held before.
    pub place_all-perm :
        (s : Dict V × V) (items : List A)
        → Perm (held (all_values (place_all s items))) (held (all_values s) ++ items)
    place_all-perm s items = Perm.trans (perm_of_eq (all_held_lem (place_all s items))) (
        Perm.trans (flat_place_all s items)
          (Perm.append_right items (perm_of_eq (sym (all_held_lem s)))))
