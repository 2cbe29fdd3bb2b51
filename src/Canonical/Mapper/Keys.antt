-- ===== src/Canonical/Mapper/Keys.antt =====
-- Proofs about `sectionKeys`: keys never repeat.
use tmx_assessment.Prelude.{◌+◌, ◌≤◌, ◌≡◌, refl, arith, String, List, [], ◌∷◌, if◌then◌else◌}
use tmx_assessment.Prelude.Text.{◌===◌, eq_iff}
use tmx_assessment.Prelude.Dict.{Dict, set, values}
use tmx_assessment.Prelude.Counting.{any_count}
use tmx_assessment.Prelude.Names.{times}
use tmx_assessment.Schema.{SectionRow}
use tmx_assessment.Canonical.Slugs.{Unicode, slugify, first_free}
use tmx_assessment.Canonical.Slugs.Fresh.{first_free-IsFree}
use tmx_assessment.Canonical.Mapper.{section_keys, section_keys_from}

times-set :
    (i k v : String) (m : Dict String)
    → times i (values (set k v m)) ≤ times i (values m) + (if v === i then 1 else 0)
unfolding set
times-set i k v [] = ground arith
times-set i k v ((j, w) ∷ m) = ground (arith, times-set i k v m)

-- No key twice, and all of them used.
abbrev IsKeys : List String → Dict String → Type 0
IsKeys used keys =
    ((i : String) → times i (values keys) ≤ 1)
    × ((i : String) → times i used ≡ 0 → times i (values keys) ≡ 0)

set-IsKeys :
    (used : List String) (keys : Dict String) (id base : String)
    → IsKeys used keys
    → IsKeys (first_free used base ∷ used) (set id (first_free used base) keys)
set-IsKeys used keys id base (once, unused) =
    let key : String = first_free used base in
    let free : times key used ≡ 0 = any_count (λ t. t === key) used (first_free-IsFree used base) in
    let fresh : (i : String) → key ≡ i → times i (values keys) ≡ 0 =
      λ i e. rw (← e) (unused key free) in
    (
      (λ i. ground (arith, eq_iff key i, once i, times-set i id key keys, fresh i)),
      (λ i n. ground (arith, eq_iff key i, unused i, times-set i id key keys)),
    )

module _ (u : Unicode) {F : Type 0} where
  keys_from_once :
      (used : List String) (keys : Dict String) (sections : List (SectionRow F))
      → IsKeys used keys
      → (i : String) → times i (values (section_keys_from u used keys sections)) ≤ 1
  unfolding section_keys_from
  keys_from_once used keys [] h i = h.0 i
  keys_from_once used keys (s ∷ ss) h i =
      let key : String = first_free used (slugify u s.name "section") in
      keys_from_once (key ∷ used) (set s.id key keys) ss
        (set-IsKeys used keys s.id (slugify u s.name "section") h) i

  -- No two sections of a test get the same key, whatever their names are.
  pub section_keys_once :
      (sections : List (SectionRow F)) (key : String)
      → times key (values (section_keys u sections)) ≤ 1
  unfolding section_keys
  section_keys_once sections = keys_from_once [] [] sections ((λ i. omega arith), (λ i h. refl))
