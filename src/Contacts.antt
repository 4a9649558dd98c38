-- ===== src/Contacts.antt =====
-- The address book and the blocks: the tables `contacts` (migrations/007_contacts.sql) and `user_blocks`
-- (migrations/008_user_blocks.sql), the queries of crates/infrastructure/src/repositories/contact.rs, and
-- the endpoints of crates/api/src/handlers/contacts/handlers.rs and crates/api/src/handlers/blocks/handlers.rs.
pub mod Store
pub mod Blocks
pub mod Queries
pub mod Handlers
pub mod Phones
pub mod Answers
mod Tests
