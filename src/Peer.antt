-- ===== src/Peer.antt =====
-- internal/client/peer/peer.go: one WebRTC connection and its channels. The WebRTC library is third
-- party: what its operations answer is a parameter.
pub mod Negotiation
pub mod Queue
pub mod Channels
pub mod Sending
pub mod Receiving
pub mod Video
