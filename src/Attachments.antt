-- ===== src/Attachments.antt =====
-- Attachments: crates/api/src/handlers/attachments/handlers.rs over the table message_attachments and its
-- queries in crates/infrastructure/src/repositories/chat.rs.
pub mod Store
pub mod Queries
pub mod Handlers
pub mod Names
pub mod Uploads
pub mod Linking
pub mod Requests
mod Tests
