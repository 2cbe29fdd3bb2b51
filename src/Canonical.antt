-- ===== src/Canonical.antt =====
-- The modules of backend/src/assessments/canonical: the frozen test, the question rules, the
-- scoring and the layout of an attempt.
pub mod Rules
pub mod Questions
pub mod Slugs
pub mod Mapper
pub mod Documents
pub mod Snapshot
pub mod Scoring
pub mod Layout
