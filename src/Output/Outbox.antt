-- ===== src/Output/Outbox.antt =====
-- output/project_a/store.py: the transactions of `OutboxStore` on the deliveries of the renderers.
-- The operations stand in the children, their proofs in the children named for what they prove.
pub mod Claim
pub mod Finish
pub mod Recover
pub mod Admin
pub mod Create
pub mod Outcome
pub mod RowStep
pub mod Refines
pub mod Store
