-- ===== src/Protocol.antt =====
-- The transport-agnostic half of the client protocol (internal/protocol).
pub mod Types
pub mod Session
pub mod Ops
pub mod Calls
pub mod Gate
pub mod Identity
pub mod Rollback
pub mod Limit
pub mod Publish
