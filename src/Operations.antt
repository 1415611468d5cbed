-- ===== src/Operations.antt =====
-- Following a run: which operation a screen watches
-- (frontend/src/features/operations/hooks/useWatchedOperation.ts) and how the overlay shows it
-- (frontend/src/features/operations/components/OperationOverlay.tsx).
pub mod Watch
pub mod Overlay
mod Tests
