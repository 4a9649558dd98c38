-- ===== src/Call.antt =====
-- Voice and video calls: crates/domain/src/call, their table
-- (crates/infrastructure/src/repositories/call/postgres.rs, migrations/019_webrtc_calls.sql) and the
-- signalling messages (crates/api/src/handlers/ws/handlers.rs).
pub mod CallType
pub mod CallStatus
pub mod Repository
pub mod Service
pub mod Signaling
mod Tests
