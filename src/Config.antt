-- ===== src/Config.antt =====
-- frost-client/src/cli/config.rs and contact.rs: the user's configuration and the address book.
pub mod File
pub mod Contacts
pub mod AddressBook
pub mod Commands
mod Examples
