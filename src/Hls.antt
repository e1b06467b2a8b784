-- ===== src/Hls.antt =====
-- js/src/streammachine/rewind/hls_segmenter.js: chunks of audio become segments, and these get ids.
pub mod Injector
pub mod Finalizer
pub mod Index
pub mod Tests
