-- ===== src/Permissions.antt =====
-- src/permissions.rs: the permission gate.
pub mod Types
pub mod Paths
pub mod Gate
pub mod Best
pub mod Decisions
