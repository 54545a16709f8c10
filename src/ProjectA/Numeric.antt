-- ===== src/ProjectA/Numeric.antt =====
-- project_a/numeric_state.py: the state that numeric events determine, replayed from all events.
pub mod Events
pub mod Distance
pub mod View
pub mod Select
pub mod Fold
pub mod Ingest
pub mod Rollback
pub mod Order
pub mod Histories
pub mod Scanners
pub mod Reached
pub mod Replay
pub mod Zones
pub mod Keys
pub mod Tracking
pub mod Arrival
pub mod Queries
pub mod Newest
mod Tests
