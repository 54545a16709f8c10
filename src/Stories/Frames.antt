-- ===== src/Stories/Frames.antt =====
-- A relation between databases that every write of the store respects holds between the ends of every
-- call and of every run.
mod Rules
mod Written
mod Enqueues
mod Captures
mod Works
mod Runs
pub use Rules.{Frame, Numbered, IsOpen, closed_last}
pub use Written.{Writes, frame}
pub use Runs.*
