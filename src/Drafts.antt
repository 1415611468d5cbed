-- ===== src/Drafts.antt =====
-- What the draft step reads off the draft on screen (frontend/src/features/drafts/model).
pub mod Editing
pub mod Coverage
pub mod Regeneration
pub mod RegenerationRun
pub mod RenderDocument
pub mod Claims
pub mod Fit
mod RenderTests
mod Tests
