-- ===== src/Composer.antt =====
-- src/input_composer.rs: the editing of the input, its undo and redo, and the kill ring.
pub mod Editor
pub mod History
pub mod KillRing
