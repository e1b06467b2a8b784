-- ===== src/Rewind.antt =====
-- The rewind buffer (js/src/streammachine/rewind and rewind_buffer.js).
pub mod Store
pub mod Rewinder
pub mod Buffer
pub mod Dump
pub mod Load
mod Tests
