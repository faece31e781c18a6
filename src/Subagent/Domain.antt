-- ===== src/Subagent/Domain.antt =====
-- src/subagent_domain.rs: the types of the subagent domain, and the validation of the commands
-- that a model or a person gives.
pub mod Types
pub mod Text
pub mod Cursor
pub mod Policy
pub mod Validate
