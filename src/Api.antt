-- ===== src/Api.antt =====
-- What the server sends and accepts (openapi/types.ts, frontend/src/api): the data types that the
-- front end reads, and the reductions that the api modules make of them.
pub mod Operations
pub mod Documents
pub mod Analyses
pub mod Applications
mod Tests
