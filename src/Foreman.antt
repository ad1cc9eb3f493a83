-- ===== src/Foreman.antt =====
-- The foreman (foreman/): it plans which clients run which hunts and which need a new table of
-- event queries, and carries the plan out.
pub mod Types
pub mod Labels
pub mod Plan
pub mod Update
pub mod Outcome
pub mod Execute
pub mod Run
mod Tests
