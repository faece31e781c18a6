-- ===== src/TerminalRecovery.antt =====
-- src/terminal_recovery.rs: what recovery does with a durable terminal record.
pub mod Reconcile
pub mod Table
