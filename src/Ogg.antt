-- ===== src/Ogg.antt =====
-- ogg.py: Ogg pages, the two Opus headers, and the stream that they make up.
pub mod Bytes
pub mod Page
pub mod Split
pub mod Utf8
pub mod IdHeader
pub mod CommentHeader
pub mod Audio
mod Tests
