-- ===== src/Comms.antt =====
-- The HTTP implementations of the `Comms` traits: comms/http.rs of coordinator, participant and dkg.
pub mod Core
pub mod Arrivals
pub mod Polling
pub mod Frames
pub mod Payloads
pub mod Coordinator
pub mod Participant
pub mod Dkg
pub mod Examples
