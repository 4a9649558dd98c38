-- ===== src/Messages.antt =====
-- Messages: the message queries of crates/infrastructure/src/repositories/chat.rs, and
-- crates/api/src/handlers/chats/handlers.rs.
pub mod Store
pub mod Queries
pub mod Listing
pub mod Settings
pub mod Handlers
pub mod Sending
pub mod Statuses
pub mod Reading
pub mod Editing
pub mod Requests
pub mod Writes
pub mod Authorship
pub mod Notifying
pub mod Syncing
mod Tests
