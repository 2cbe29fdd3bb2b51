-- ===== src/Prelude/Dict.antt =====
-- A `Map` with string keys, in its order of insertion, as an association list. `set` of a key that
-- is there replaces the value in place, and otherwise adds the pair at the end.
use mathlib.Core.List.{List, [], ◌∷◌}
use mathlib.Core.Option.{Option, none, some}
use mathlib.Core.Path.{◌≡◌, refl}
use mathlib.Core.Bool.{Bool, false, ◌||◌}
use mathlib.Core.Logic.{inl, inr}
use native.Mathlib.Omega.{arith}
use Prim.Native.String.{String}
use tmx_assessment.Prelude.Tests.{if◌then◌else◌, Bool-cases}
use tmx_assessment.Prelude.Lists.{All}
use tmx_assessment.Prelude.Text.{◌===◌, eq_iff}

abbrev pub Dict {ℓ} : Type ℓ → Type ℓ
Dict V = List (String × V)

module _ {ℓ} {V : Type ℓ} where
  unfoldable pub get : String → Dict V → Option V
  get k [] = none
  get k ((j, v) ∷ m) = if j === k then some v else get k m

  unfoldable pub set : String → V → Dict V → Dict V
  set k v [] = (k, v) ∷ []
  set k v ((j, w) ∷ m) = if j === k then (j, v) ∷ m else (j, w) ∷ set k v m

  unfoldable pub has : String → Dict V → Bool
  has k [] = false
  has k ((j, v) ∷ m) = j === k || has k m

  abbrev pub values : Dict V → List V
  values [] = []
  values ((k, v) ∷ m) = v ∷ values m

  -- `new Map(entries)`
  unfoldable pub from_entries : Dict V → Dict V → Dict V
  unfolding set
  from_entries m [] = m
  from_entries m ((k, v) ∷ es) = from_entries (set k v m) es

  pub get-set :
      (k j : String) (v : V) (m : Dict V)
      → get j (set k v m) ≡ (if k === j then some v else get j m)
  unfolding get set
  get-set k j v [] = refl
  get-set k j v ((i, w) ∷ m) = ground (arith, eq_iff k j, eq_iff i k, eq_iff i j, get-set k j v m)

  pub All-set {κ} :
      (P : V → Type κ) (k : String) (v : V) (m : Dict V)
      → P v
      → All P (values m)
      → All P (values (set k v m))
  unfolding set
  All-set P k v [] h a = (h, tt)
  All-set P k v ((j, w) ∷ m) h a = elim (Bool-cases (j === k)) [
    | inl e ↦ rw e (h, a.1)
    | inr e ↦ rw e (a.0, All-set P k v m h a.1)
  ]
