-- ===== src/Chat.antt =====
-- Chats and their participants: crates/domain/src/chat/entity.rs, the chat and group queries of
-- crates/infrastructure/src/repositories/chat.rs, crates/api/src/handlers/groups/handlers.rs, and the chat
-- endpoints of crates/api/src/handlers/chats/handlers.rs.
pub mod ChatType
pub mod Role
pub mod Store
pub mod Chats
pub mod Participants
pub mod Handlers
pub mod Endpoints
pub mod Ownership
mod Tests
