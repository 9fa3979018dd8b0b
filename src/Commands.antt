-- ===== src/Commands.antt =====
-- The commands of frost-client: frost-client/src/cli/.
pub mod Machine
pub mod Groups
pub mod Steps
pub mod Coordinator
pub mod Participant
pub mod Dkg
pub mod Sessions
mod Examples
