-- ===== src/Subagent.antt =====
-- The subagent subsystem, one module for each of its source files.
pub mod Domain
pub mod Admission
pub mod Control
pub mod Approval
pub mod Communication
pub mod Authority
pub mod Relationship
