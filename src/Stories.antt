-- ===== src/Stories.antt =====
-- project_a_analysis/store.py: the stories that a touch of liquidity opens, the analysis jobs that
-- their triggers queue, and the audit of every change.
pub mod Rows
pub mod Tables
pub mod Audit
pub mod Memory
pub mod Enqueue
pub mod Capture
pub mod Work
pub mod Complete
pub mod Step
pub mod Frames
pub mod Chain
pub mod History
pub mod Closing
pub mod Numbering
pub mod Selection
pub mod Inversion
pub mod Claims
pub mod Leases
pub mod Failures
pub mod Finishing
mod Tests
