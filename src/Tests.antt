-- ===== src/Tests.antt =====
-- Runs of the modelled code at concrete inputs, and each property at one of them.
pub mod Batches
pub mod Caches
pub mod Codecs
pub mod Dispatches
pub mod Frames
pub mod Notices
pub mod Graphs
pub mod Hosts
pub mod Openings
pub mod Reads
pub mod Slots
pub mod Stores
pub mod Undos
pub mod Writes
