-- ===== src/Server.antt =====
-- src/lib.rs, src/connection.rs and src/cmd.rs: a connection from its first byte to its end.
pub mod World
pub mod Connection
pub mod Cmd
pub mod Run
pub mod Chunks
pub mod Blocks
pub mod Replies
pub mod Failures
pub mod Insert
pub mod Keeps
pub mod Invariant
mod Tests
