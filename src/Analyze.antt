-- ===== src/Analyze.antt =====
-- analyze/: the deterministic analysis of bars.
pub mod Pivots
pub mod Structure
mod Tests
