-- ===== src/Stories/Tests.antt =====
-- The theorems on the analysis store at concrete databases and calls.
mod Data
mod Runs
mod Jobs
