-- ===== src/App.antt =====
-- internal/client/app/app.go: the application loop of a call.
pub mod Session
pub mod Steps
pub mod Signals
pub mod Inviting
pub mod Placing
