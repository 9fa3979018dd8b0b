-- ===== src/Protocol.antt =====
-- The protocols that run over the communication: cli.rs of coordinator, participant and dkg.
pub mod Frost
pub mod Cleanup
pub mod Coordinator
pub mod Participant
pub mod Dkg
pub mod Examples
