-- ===== src/Binary.antt =====
-- src/binary: reading from and writing to byte streams.
pub mod Reader
pub mod ReadEx
pub mod Cursor
pub mod Uvarint
pub mod Encoder
pub mod Framing
pub mod Varint
pub mod RoundTrip
pub mod Gives
pub mod Bounds
mod Tests
