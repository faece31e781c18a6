-- ===== src/ModelRecovery.antt =====
-- src/model_response_recovery.rs, and the loop of src/agent.rs that acts on its decisions.
pub mod Policy
pub mod Probe
pub mod Overlap
pub mod Classify
pub mod Attempts
