-- ===== src/Cmd.antt =====
-- cmd/: the gates, the manager, and the three parts that the manager feeds.
pub mod Gate
pub mod Manager
pub mod Audio
pub mod Frame
pub mod Conn
pub mod NetStream
