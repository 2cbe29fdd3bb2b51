-- ===== src/Tests/Duplicates.antt =====
-- A test with two sections whose names differ, where the key of one is the name of the other, cannot be
-- duplicated.
use tmx_assessment.Prelude.{◌≡◌, refl, String, none, [], ◌∷◌}
use tmx_assessment.Float.Fraction.{Fraction, fractions}
use tmx_assessment.Http.{bad_request, err}
use tmx_assessment.Edit.Store.{StoredSection, Library}
use tmx_assessment.Edit.Import.{duplicate_test}
use tmx_assessment.Tests.Library.{runtime, library}

abbrev section_called : String → String → StoredSection Fraction
section_called id name = record {
  assessment_id = "a1";
  row = record { id = id; name = name; description = none; order = 0; weight = none };
}

abbrev two_sections : Library Fraction
two_sections = record library {
  sections = section_called "s1" "a b" ∷ section_called "s2" "a-b" ∷ [];
}

cannot_duplicate :
    (duplicate_test fractions runtime "a1" two_sections).0
    ≡ err (bad_request ("Two sections are called \"a-b\"." ∷ []))
unfolding duplicate_test
cannot_duplicate = refl
