-- ===== src/Autosave.antt =====
-- The draft editor's autosave (frontend/src/features/drafts/hooks/useDraftAutosave.ts): `Buffer` is
-- what the user has written and the server has not accepted, `Machine` the hook around it.
pub mod Buffer
pub mod Machine
mod Tests
