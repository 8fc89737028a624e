-- ===== src/Lib.antt =====
-- A model of clickhouse-srv, a server for the native protocol of ClickHouse, and what makes it correct.
--
-- A client opens a TCP connection and sends packets: a greeting, queries, blocks of data, pings.
-- `ClickHouseServer::run` (src/lib.rs) reads packets with `Connection::read_packet`
-- (src/connection.rs), which buffers the stream and tries to parse a packet off the front of the
-- buffer (src/binary/parser.rs, src/protocols), and hands each to `Cmd::apply` (src/cmd.rs), which
-- answers it and keeps the state of the query. Queries are executed by code of the user, a
-- `ClickHouseSession`. The bytes of all messages go through src/binary and src/types/marshal.rs.
--
-- The files, by the code that they are about:
--   Common      native numbers, lists, bits, texts as UTF-8 bytes and signed integers
--   Errors      src/errors.rs; `Outcome` is `Result` with panics and with loops that meet their bound;
--               Index is the access to vectors, which panics out of range
--   Scalar      src/types/marshal.rs, src/types/unmarshal.rs and src/types/stat_buffer.rs
--   Binary      src/binary: ReadEx and Uvarint and Encoder are the code, `Reader` is the monad of
--               `io::Read`, Cursor its instance for a buffer in memory, Varint an independent
--               description of the bytes of a number; Framing, Gives and Encoder.Writes are the rules by which properties of readers and encoders are put together
--   Protocols   src/protocols and src/binary/parser.rs: Constants, Hello, Query, Response and Packet
--               are the code; Wire, InfoWire and QueryWire describe the bytes of a client's packets,
--               Replies those of the server's
--   Types       `SqlType` of src/types/mod.rs and src/types/decimal.rs
--   Column      src/types/column: Data is the columns with their save, StringPool the pool of strings,
--               TypeName and DecimalName the parsers of type names in factory.rs, Branch the choice
--               of a column by its name, Load `load_data` and the loads of the columns, Values
--               the values at a place (value_ref.rs), FixedPush the push to a fixed string, Concat
--               concat.rs; the files below these say when what was saved is loaded again
--   Block       src/types/block: Info is block_info.rs, Data and Compressed are mod.rs, compressed.rs
--               and chunk_iterator.rs; Begins and Mirrors compare a reader of frames with a buffer
--               that holds what is in them, RoundTrip, CompressedTrip and Framing are about whole
--               blocks, Chunks about their cutting
--   Server      src/lib.rs, src/connection.rs and src/cmd.rs: World is the state of a connection
--               with its socket and the channel of an insert, Connection, Cmd and Run are the code,
--               a step that may fail is an `Action`, which keeps what was changed before an
--               error; Keeps has rules for actions; Insert, Replies and Failures are about what the
--               client is sent, Blocks puts the blocks of src/types/block behind the packets
--
-- Choices and bounds. A u64, usize or u32 is a natural number with its wrap-around written out where
-- the code can meet it; shifts and sums wrap as in a release build. The loops of the readers that only
-- the input ends run on fuel of 2 ^ 64 rounds, and `run` on one round for each byte that the socket
-- brings and one more: each round takes a byte at least, and no buffer in memory has as many as
-- 2 ^ 64. What the socket reports to reads is a list of events, and to writes and flushes a list of faults, so
-- the ways in which the network may cut or break the stream are inputs of the model. A channel
-- holds what was sent, how many more blocks it takes, and what becomes of a send after these: its receiver
-- is gone, or it stays full. The notification that ends an insert (`sent_all_data`) is a permit, which
-- the session may give while it executes the query, or the task behind the channel when the
-- channel is dropped; other times at which it might come are not distinguished. A wait that does
-- not end, for room in a channel or for the notification, has the outcome `diverged`, as a loop that
-- meets its bound. That many rounds are enough for input that is not compressed; what a client packs
-- may unpack to more than 2 ^ 64 bytes, which is beyond the bound.
--
-- Loading a column recurses on the name of its type, which gets shorter by a byte at least with each
-- column that holds another; its fuel is the length of the name and two. The rounds of an allocation
-- in a pool are two, since the second has a new chunk with room, and those of the iterator over chunks one
-- for each row and two more.
--
-- Parameters: the format of a block (`load_block`) and whether it has columns, and the code of the
-- session. A format is assumed to do on a part of its input what it does on the whole, but for a
-- want of bytes. Sessions are assumed not to open a stage without a channel. The parsers that are written with
-- the package `combine` and the names of time zones (`TypeParsers`), and LZ4 and CityHash (`Codec`), are
-- parameters too.
--
-- Not modelled: the push of the columns but for fixed strings, `cast_to`, the adapters from vectors
-- and the views of columns by pointers, rows and their builder, `Value` and its conversions, the
-- options of a connection, and the table of error codes, which no modelled code uses; tokio, TLS
-- and logging; the time zone of a connection.
pub mod Common
pub mod Errors
pub mod Scalar
pub mod Binary
pub mod Protocols
pub mod Types
pub mod Block
pub mod Column
pub mod Server
