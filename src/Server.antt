-- ===== src/Server.antt =====
-- crates/engine/src/server.rs: the framing of messages, the slot of the session, and the dispatch of
-- requests.
pub mod Utf8
pub mod Frames
pub mod Slot
pub mod Messages
pub mod Methods
pub mod Dispatch
