-- ===== src/Edit.antt =====
-- How staff edit a test: backend/src/assessments/questions.service.ts, and the settings of
-- assessments.service.ts.
pub mod Store
pub mod Sections
pub mod Questions
pub mod Settings
pub mod Order
pub mod Bands
pub mod Import
pub mod Previews
pub mod Files
