-- ===== src/Ingest/Service.antt =====
-- ingest/project_a/: the service that receives, validates and commits the Event 0.2 documents of
-- Project A, keeps the lifecycle of each setup, and hands ready setups to the next stage.
pub mod Lifecycle
pub mod Rows
pub mod Validate
pub mod Commit
pub mod Receive
pub mod Outbox
pub mod Step
pub mod Frames
pub mod Setups
pub mod History
pub mod Redelivery
pub mod Deliveries
pub mod Gates
pub mod Dispatch
pub mod Settled
pub mod Handover
pub mod Retries
mod Tests
