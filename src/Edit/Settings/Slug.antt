-- ===== src/Edit/Settings/Slug.antt =====
-- Proofs about `uniqueSlug`: it ends, with a slug that no test has.
use Prim.Native.String.{◌++◌ as append, [] as empty, ◌∷◌ as cons}
use Prim.Native.String.append
use tmx_assessment.Prelude.{
  ℕ, zero, suc, ◌≡◌, refl, arith, String, true, false, List, [], ◌∷◌, filter, length,
}
use tmx_assessment.Prelude.Text.{eq_iff}
use tmx_assessment.Canonical.Slugs.{numbered, is_used, first_numbered, first_free}
use tmx_assessment.Canonical.Slugs.Fresh.{first_free-IsFree}
use tmx_assessment.Edit.Store.{Library}
use tmx_assessment.Edit.Settings.{starts_with, slugs, slug_root, unique_slug}

starts_with_self : (s : String) → starts_with s s ≡ true
unfolding starts_with
starts_with_self empty = refl
starts_with_self (cons c s) = ground (arith, starts_with_self s)

starts_with-append : (s t : String) → starts_with s (append s t) ≡ true
unfolding starts_with
starts_with-append empty t = refl
starts_with-append (cons c s) t = rw (append.cons c s t) (ground (arith, starts_with-append s t))

starts_with-numbered : (base : String) (n : ℕ) → starts_with base (numbered base n) ≡ true
unfolding numbered
starts_with-numbered base n = starts_with-append base _

starts_with-first_numbered :
    (fuel : ℕ) (taken : List String) (base : String) (n : ℕ)
    → starts_with base (first_numbered fuel taken base n) ≡ true
unfolding first_numbered
starts_with-first_numbered zero taken base n = starts_with-numbered base n
starts_with-first_numbered (suc fuel) taken base n =
    ground (arith, starts_with-numbered base n, starts_with-first_numbered fuel taken base (suc n))

starts_with-first_free :
    (taken : List String) (base : String) → starts_with base (first_free taken base) ≡ true
unfolding first_free
starts_with-first_free taken base =
    ground (arith, starts_with_self base, starts_with-first_numbered (length taken) taken base 2)

-- Who is not among the names with a prefix, and has the prefix, is not among the names.
not_taken :
    (p s : String) (names : List String)
    → starts_with p s ≡ true
    → is_used (filter (starts_with p) names) s ≡ false
    → is_used names s ≡ false
not_taken p s [] h f = refl
not_taken p s (x ∷ xs) h f =
    let kept : x ≡ s → starts_with p x ≡ true = λ e. rw e h in
    ground (arith, eq_iff x s, kept, not_taken p s xs h)

-- `uniqueSlug` gives a slug that no test of the library has.
pub unique_slug_is_new :
    {F : Type 0} (base : String) (db : Library F) → is_used (slugs db) (unique_slug base db) ≡ false
unfolding unique_slug
unique_slug_is_new base db =
    not_taken (slug_root base) _ (slugs db)
      (starts_with-first_free (filter (starts_with (slug_root base)) (slugs db)) (slug_root base))
      (first_free-IsFree (filter (starts_with (slug_root base)) (slugs db)) (slug_root base))
