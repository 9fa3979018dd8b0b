-- ===== src/Session.antt =====
-- frost-client/src/session.rs: the session states of a coordinator and of a DKG participant.
pub mod Suite
pub mod Columns
pub mod Coordinator
pub mod Dkg
pub mod Examples
