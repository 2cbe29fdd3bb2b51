-- ===== src/Tests/Layouts.antt =====
-- The theorems on layouts, at the fixtures.
use tmx_assessment.Prelude.{ℕ, List, [], ◌∷◌, Perm, Pairs}
use tmx_assessment.Canonical.Snapshot.{SnapshotQuestion}
use tmx_assessment.Canonical.Layout.{build_layout}
use tmx_assessment.Canonical.Layout.Options.{EntryFor, build_layout_complete}
use tmx_assessment.Canonical.Layout.Mulberry.{mulberry32}
use tmx_assessment.Tests.Fixtures.{choice_test}

abbrev numbers : List ℕ
numbers = 1 ∷ 2 ∷ 3 ∷ []

build_layout_complete_example :
    (order : List SnapshotQuestion) × Perm order choice_test.questions
    × Pairs (EntryFor mulberry32) (build_layout mulberry32 7 choice_test).0.questions order
build_layout_complete_example = build_layout_complete mulberry32 7 choice_test
