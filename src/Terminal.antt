-- ===== src/Terminal.antt =====
-- internal/client/terminal/terminal.go: what the terminal shows.
pub mod Screen
pub mod Video
pub mod Runes
pub mod Sanitize
