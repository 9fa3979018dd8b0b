-- ===== src/Cipher.antt =====
-- frost-client/src/cipher.rs: the encryption of the messages that pass through the server.
pub mod Snow
pub mod Noise
pub mod Peers
pub mod Validity
pub mod Use
pub mod Opening
pub mod Conversation
pub mod Examples
