-- ===== src/Chunk.antt =====
-- Frames of equal size: core/chunk/chunk.go.
pub mod Frames
pub mod RoundTrip
mod Tests
