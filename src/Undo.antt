-- ===== src/Undo.antt =====
-- crates/engine/src/undo.rs: the undo journal, its snapshots, and cascade rollback.
pub mod Disk
pub mod Snapshots
pub mod Journal
pub mod Rollback
pub mod Engine
