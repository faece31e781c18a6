-- ===== src/Diff.antt =====
-- src/diff.rs: the diff of two texts by lines. A text is the list of its bytes, as numbers.
pub mod Lines
pub mod Compute
