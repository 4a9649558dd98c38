-- ===== src/Profiles.antt =====
-- The profiles of users: crates/api/src/handlers/users/handlers.rs with the cache of
-- crates/infrastructure/src/cache/profile.rs.
pub mod Store
pub mod Handlers
pub mod Histories
pub mod Freshness
mod Tests
