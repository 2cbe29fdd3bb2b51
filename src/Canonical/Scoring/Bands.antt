-- ===== src/Canonical/Scoring/Bands.antt =====
-- Proofs about `bandFor` of scoring.ts: the band of a score.
use mathlib.Core.List.Perm
use tmx_assessment.Prelude.{
  ◌≡◌, refl, ap, true, false, inl, inr, Option, none, some, List, [], ◌∷◌, Mem, find?, All,
  Bool-cases, Option-cases, arith,
}
use mathlib.Core.List.{mem-cons, not-mem-nil}
use mathlib.Core.Logic.Or
use mathlib.Core.HLevel.{⊥_prop}
use mathlib.Core.Bool.{Bool-set}
use tmx_assessment.Prelude.Sort.{sort, sort-perm, sort-IsSorted, IsSorted}
use tmx_assessment.Float.{Float}
use tmx_assessment.Canonical.Snapshot.{SnapshotBand}
use tmx_assessment.Canonical.Scoring.Groups.{band_before, band_for, epsilon}

module _ (fl : Float) where
  open fl use {F, add, le, le_refl, le_trans, le_total}

  -- The score, with the tolerance for rounding, reaches the band's minimum.
  abbrev pub Reaches : F → SnapshotBand F → Type 0
  Reaches score band = le band.min_score (add score (epsilon fl)) ≡ true

  before_trans :
      (x y z : SnapshotBand F)
      → band_before fl y x ≡ false
      → band_before fl z y ≡ false
      → band_before fl z x ≡ false
  before_trans x y z h k = ground (arith, le_trans z.min_score y.min_score x.min_score)

  before_asym : (x y : SnapshotBand F) → band_before fl x y ≡ true → band_before fl y x ≡ false
  before_asym x y h = ground (arith, le_total x.min_score y.min_score)

  -- What the band `b` is among the bands of a list.
  abbrev pub IsHighestReached : F → List (SnapshotBand F) → SnapshotBand F → Type 0
  IsHighestReached score bands b =
      Mem b bands
      × Reaches score b
      × ((c : SnapshotBand F) → Mem c bands → Reaches score c → le c.min_score b.min_score ≡ true)

  below_head :
      (x c : SnapshotBand F) (xs : List (SnapshotBand F))
      → All (λ y. band_before fl y x ≡ false) xs
      → Mem c xs
      → le c.min_score x.min_score ≡ true
  below_head x c [] a m = absurd (not-mem-nil m)
  below_head x c (y ∷ ys) a m =
      Or.elim (Bool-set _ _) (mem-cons.0 m) (λ e. rw e (ground arith)) (below_head x c ys a.1)

  some≢none : (x : SnapshotBand F) → ◌≡◌ {A = Option (SnapshotBand F)} (some x) none → ⊥
  some≢none x h = cc

  some_eq : (x b : SnapshotBand F) → ◌≡◌ {A = Option (SnapshotBand F)} (some x) (some b) → x ≡ b
  some_eq x b h = cc

  first_reached :
      (score : F) (b : SnapshotBand F) (xs : List (SnapshotBand F))
      → IsSorted (band_before fl) xs
      → find? (λ band. le band.min_score (add score (epsilon fl))) xs ≡ some b
      → IsHighestReached score xs b
  first_reached score b [] s h = cc
  first_reached score b (x ∷ xs) s h = elim (Bool-cases (le x.min_score (add score (epsilon fl)))) [
    | inl e ↦
        let p : x ≡ b = some_eq x b (rw e at h) in
        rw (← p) (
          mem-cons.1 (Or.inl refl),
          e,
          λ c mc rc.
              Or.elim (Bool-set _ _) (mem-cons.0 mc) (λ q. rw q (le_refl x.min_score))
                (below_head x c xs s.0),
        )
    | inr e ↦
        let (m, r, hi) = first_reached score b xs s.1 (rw e at h) in
        (
          mem-cons.1 (Or.inr m),
          r,
          λ c mc rc.
              Or.elim (Bool-set _ _) (mem-cons.0 mc)
                (λ q.
                  cc
                    (ap (λ (d : SnapshotBand F). le d.min_score (add score (epsilon fl))) q, e, rc))
                (λ q. hi c q rc),
        )
  ]

  none_reached :
      (score : F) (xs : List (SnapshotBand F)) (c : SnapshotBand F)
      → find? (λ band. le band.min_score (add score (epsilon fl))) xs ≡ none
      → Mem c xs
      → ¬ Reaches score c
  none_reached score [] c h m = absurd (not-mem-nil m)
  none_reached score (x ∷ xs) c h m = elim (Bool-cases (le x.min_score (add score (epsilon fl)))) [
    | inl e ↦ absurd (some≢none x (rw e at h))
    | inr e ↦ λ r.
        Or.elim ⊥_prop (mem-cons.0 m)
          (λ q. cc (ap (λ (d : SnapshotBand F). le d.min_score (add score (epsilon fl))) q, e, r))
          (λ q. none_reached score xs c (rw e at h) q r)
  ]

  band_for_found :
      (bands : List (SnapshotBand F)) (score : F) (b : SnapshotBand F)
      → band_for fl bands score ≡ some b
      → IsHighestReached score bands b
  unfolding band_for
  band_for_found bands score b h =
      let (m, r, hi) =
        first_reached score b (sort (band_before fl) bands)
          (sort-IsSorted (band_before fl) before_trans before_asym bands) h in
      (
        (Perm.mem_iff (sort-perm (band_before fl) bands)).0 m,
        r,
        λ c mc. hi c ((Perm.mem_iff (sort-perm (band_before fl) bands)).1 mc),
      )

  band_for-none :
      (bands : List (SnapshotBand F)) (score : F) (c : SnapshotBand F)
      → band_for fl bands score ≡ none
      → Mem c bands
      → ¬ Reaches score c
  unfolding band_for
  band_for-none bands score c h mc =
      none_reached score (sort (band_before fl) bands) c h
        ((Perm.mem_iff (sort-perm (band_before fl) bands)).1 mc)

  -- When a score reaches the minimum of some band `c`, the score has a band: one of the bands, whose
  -- minimum is reached too and is at least that of `c`.
  pub band_for_highest :
      (bands : List (SnapshotBand F)) (score : F) (c : SnapshotBand F)
      → Mem c bands
      → le c.min_score (add score (epsilon fl)) ≡ true
      → (b : SnapshotBand F) × (band_for fl bands score ≡ some b)
        × Mem b bands
        × (le b.min_score (add score (epsilon fl)) ≡ true)
        × (le c.min_score b.min_score ≡ true)
  band_for_highest bands score c mc rc = elim (Option-cases (band_for fl bands score)) [
    | inl e ↦ absurd (band_for-none bands score c e mc rc)
    | inr (b, e) ↦ let (m, r, hi) = band_for_found bands score b e in (b, e, m, r, hi c mc rc)
  ]
