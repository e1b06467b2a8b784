-- ===== src/Aac.antt =====
-- js/src/streammachine/parsers/aac.js: a stream of bytes is cut into AAC frames (ADTS).
pub mod Header
pub mod Parser
mod Tests
