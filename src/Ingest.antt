-- ===== src/Ingest.antt =====
-- ingest/: the decision whether an alert wakes the analysis.
pub mod Trigger
pub mod Service
mod Tests
