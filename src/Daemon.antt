-- ===== src/Daemon.antt =====
-- internal/client/daemon/daemon.go: the background service that answers for a user. It keeps the calls
-- that wait for a window, and passes signals between the server and the windows.
pub mod Service
pub mod Windows
pub mod Claims
pub mod Handover
pub mod Invitations
pub mod Reconnect
