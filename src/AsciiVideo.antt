-- ===== src/AsciiVideo.antt =====
-- internal/client/asciivideo: the frames of ASCII video and their wire form.
pub mod Wire
pub mod Delta
pub mod Codec
pub mod Convert
