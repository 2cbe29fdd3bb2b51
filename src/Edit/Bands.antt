-- ===== src/Edit/Bands.antt =====
-- questions.service.ts: a test's score bands are replaced as a whole, highest minimum first.
use tmx_assessment.Prelude.{String, not, List, [], ◌∷◌, ◌++◌, map, map_idx, filter, any}
use tmx_assessment.Prelude.Text.{◌===◌}
use tmx_assessment.Prelude.Sort.{sort}
use tmx_assessment.Float.{Float}
use tmx_assessment.Http.{bad_request, not_found, Action, gets, modify, throw_if, ◌>>=◌, ◌>>◌}
use tmx_assessment.Schema.{BandRow, AssessmentRow}
use tmx_assessment.Canonical.Documents.{repeats}
use tmx_assessment.Canonical.Snapshot.{row_before}
use tmx_assessment.Edit.Store.{Library, content, is_band_of}
use tmx_assessment.Edit.Questions.{BandInput}
use tmx_assessment.Edit.Settings.{stored_band}

module _ (fl : Float) where
  open fl use {F}

  abbrev pub input_band : BandInput F → BandRow F
  input_band b = record {
    min_score = b.min_score;
    label = b.label;
    interpretation = b.interpretation;
    recommended_action = b.recommended_action;
  }

  unfoldable pub write_bands : String → List (BandInput F) → Library F → Library F
  unfolding sort
  write_bands test bands db = record db {
    bands =
        filter (λ b. not (is_band_of test b)) db.bands
        ++ map_idx (stored_band fl test) (sort (row_before fl) (map input_band bands));
  }

  unfoldable pub replace_bands : String → List (BandInput F) → Action (Library F) (AssessmentRow F)
  unfolding content repeats write_bands
  replace_bands test bands = do
    known ← gets (λ db. any (λ a. a.id === test) db.tests)
    throw_if (not known) (not_found "That test doesn’t exist.")
    throw_if (repeats fl (map (λ b. b.min_score) bands))
        (bad_request ("Two bands start at the same score. Give each band its own minimum." ∷ []))
    modify (write_bands test bands)
    content test
