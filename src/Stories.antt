-- ===== src/Stories.antt =====
-- Stories: crates/infrastructure/src/repositories/stories.rs, crates/domain/src/stories/entity.rs and
-- crates/api/src/handlers/stories/handlers.rs.
pub mod Store
pub mod Queries
pub mod Handlers
pub mod Visibility
pub mod Audience
pub mod Interactions
mod Tests
