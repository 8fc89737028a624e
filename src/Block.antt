-- ===== src/Block.antt =====
-- src/types/block: blocks of data and their parts.
pub mod Info
pub mod Data
pub mod Compressed
pub mod Append
pub mod Chunks
pub mod Framing
pub mod Begins
pub mod Mirrors
pub mod RoundTrip
pub mod CompressedTrip
pub mod Tests
