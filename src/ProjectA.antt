-- ===== src/ProjectA.antt =====
-- project_a/: the offline compiler of the story of a setup.
pub mod MakeSense
pub mod Numeric
mod Tests
