-- ===== src/Publish.antt =====
-- publish/: what is pushed to the reader.
pub mod Dedupe
mod Tests
