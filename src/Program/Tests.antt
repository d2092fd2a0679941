-- ===== src/Program/Tests.antt =====
-- Runs of the whole program.
mod Data
mod Runs
mod Launch
