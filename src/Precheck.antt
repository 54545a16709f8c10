-- ===== src/Precheck.antt =====
-- precheck/: whether a cycle is worth an analysis.
pub mod Prefilter
mod Tests
