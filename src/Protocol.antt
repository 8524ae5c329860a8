-- ===== src/Protocol.antt =====
-- internal/protocol: the wire messages of signaling and of the control channel.
pub mod Signal
pub mod Regex
pub mod Names
pub mod Space
pub mod Message
pub mod Validate
pub mod Control
pub mod Accepted
