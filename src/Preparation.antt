-- ===== src/Preparation.antt =====
-- The preparation of a CV (frontend/src/features/preparation/model): where each action is done, what
-- the screen offers, and how runs and analyses read.
pub mod Destinations
pub mod Matching
pub mod Plan
pub mod ViewState
pub mod Requirements
pub mod Following
pub mod Stages
mod Tests
