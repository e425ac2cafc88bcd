-- ===== src/WriteQueue.antt =====
-- crates/engine/src/write_queue.rs
pub mod Command
pub mod Validate
pub mod Conflict
pub mod Redact
pub mod Porcelain
pub mod Git
pub mod Stash
pub mod Remote
pub mod Worktree
pub mod Execute
pub mod Safety
pub mod Queue
