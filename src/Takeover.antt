-- ===== src/Takeover.antt =====
-- src/terminal_takeover.rs: the prefix of the keyboard and the state machine of a takeover.
pub mod Prefix
pub mod Controller
