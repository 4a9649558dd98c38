-- ===== src/Auth.antt =====
-- Sessions and tokens: crates/api/src/handlers/auth/mod.rs, crates/api/src/services/jwt.rs,
-- crates/api/src/middleware/auth.rs and the session queries of
-- crates/infrastructure/src/repositories/user.rs.
pub mod Store
pub mod Tokens
pub mod Handlers
pub mod Middleware
pub mod Rotation
pub mod Access
pub mod Revocation
pub mod Devices
pub mod Phone
pub mod Login
pub mod Recovery
pub mod Codes
mod Tests
mod CodeTests
