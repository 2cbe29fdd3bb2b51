-- ===== src/Tests.antt =====
-- A small test, a link with one attempt and a staff account, on which the theorems are run.
pub mod Files
pub mod Fixtures
pub mod Library
pub mod Editing
pub mod Scores
pub mod Layouts
pub mod Questions
pub mod Links
pub mod Staff
pub mod Reports
pub mod Sending
pub mod Duplicates
