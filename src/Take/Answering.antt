-- ===== src/Take/Answering.antt =====
-- `answer` of take.service.ts: when an answer is taken.
use tmx_assessment.Prelude.{ℕ, ◌≡◌, String, true, false}
use tmx_assessment.Schema.{is_in_progress}
use tmx_assessment.Float.{Float}
use tmx_assessment.Take.Store.{Attempt, Store}
use tmx_assessment.Take.Attempts.{is_overdue}
use tmx_assessment.Take.Service.{is_choice}

-- Whether an answer to the attempt is taken.
abbrev CanAnswer : {F : Type 0} → Attempt F → ℕ → String → String → Type 0
CanAnswer a now q o =
    (is_in_progress a.status ≡ true)
    × (is_overdue a.deadline_at now ≡ false)
    × (is_choice a.snapshot q o ≡ true)
