-- ===== src/Cms/Tests.antt =====
-- Runs of the bridge and the judge over a small database of the contest system.
mod Sort
pub mod Data
mod Queue
mod Requests
