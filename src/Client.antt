-- ===== src/Client.antt =====
-- frost-client/src/client.rs: the client of the server's API.
pub mod Transport
pub mod Calls
pub mod Server
pub mod Served
pub mod Examples
