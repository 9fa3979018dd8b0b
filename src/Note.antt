-- ===== src/Note.antt =====
-- zcash-sign/src/transaction_plan.rs: the note commitment tree and its witnesses.
pub mod Tree
pub mod Merkle
pub mod Path
pub mod Position
mod Examples
