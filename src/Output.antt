-- ===== src/Output.antt =====
-- The durable outbox of the renderers (output/project_a).
pub mod Stamp
pub mod Rows
pub mod Outbox
pub mod Dispatcher
mod Tests
