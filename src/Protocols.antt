-- ===== src/Protocols.antt =====
-- src/protocols: the packets of the native protocol, read from clients and written to them.
pub mod Constants
pub mod Hello
pub mod Query
pub mod Response
pub mod Packet
pub mod Framing
pub mod Wire
pub mod InfoWire
pub mod QueryWire
pub mod Replies
mod Tests
