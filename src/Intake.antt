-- ===== src/Intake.antt =====
-- The intake of a new application (frontend/src/features/application-intake).
pub mod Draft
pub mod Submission
mod Tests
