-- ===== src/Identity.antt =====
-- internal/identity: who a user is, and whom a user trusts.
pub mod Replay
pub mod Proof
pub mod Trust
pub mod Safety
