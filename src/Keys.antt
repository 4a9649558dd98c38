-- ===== src/Keys.antt =====
-- End-to-end encryption keys: crates/api/src/handlers/keys/handlers.rs,
-- crates/infrastructure/src/repositories/keys.rs and migrations/004, 005, 008 and 011.
pub mod Store
pub mod Validation
pub mod Handlers
pub mod Effects
pub mod Requests
pub mod Handouts
pub mod Counts
pub mod Answers
mod Tests
