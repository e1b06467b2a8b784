-- ===== src/Mp3.antt =====
-- js/src/streammachine/parsers/mp3.js: a stream of bytes is cut into MP3 frames.
pub mod Header
pub mod Parser
pub mod Tests
