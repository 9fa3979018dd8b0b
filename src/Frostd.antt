-- ===== src/Frostd.antt =====
-- The server, frostd/src.
pub mod Delay
pub mod State
pub mod Functions
pub mod Index
pub mod Server
pub mod Registry
pub mod Reach
pub mod Listing
pub mod Lifetime
pub mod Auth
pub mod Tokens
pub mod Replay
pub mod Mailbox
pub mod Delivery
pub mod Examples
