-- ===== src/Judge/Tests.antt =====
-- Runs of the judge on a small database.
pub mod Data
mod Scores
mod Access
