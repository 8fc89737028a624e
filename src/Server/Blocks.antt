-- ===== src/Server/Blocks.antt =====
-- `read_packet` of src/connection.rs with the blocks of src/types/block.
use clickhouse_srv.Common.{◌≡◌, List, ◌++◌, map, All, false, ℕ, Option}
use clickhouse_srv.Common.Text.{Text}
use clickhouse_srv.Binary.Cursor.{cursor, cursor_extension, read_bytes-Framed}
use clickhouse_srv.Protocols.Hello.{HelloRequest, is_empty}
use clickhouse_srv.Protocols.Packet
use clickhouse_srv.Column.Branch.{TypeParsers}
use clickhouse_srv.Block.Compressed.{Codec, load}
use clickhouse_srv.Block.Framing.{load-Framed}
use clickhouse_srv.Server.World.{bytes, Connection}
use clickhouse_srv.Server.Connection.{read_packet}
use clickhouse_srv.Server.Chunks.{joined, Reads, read_packet-Reads}

-- With the blocks of the source, compressed or not, and however the bytes still to come are cut into
-- reads that are not empty, `read_packet` gives the packet at the front of the whole input and keeps
-- what follows it; or the error that the parser ends with on the whole; or, where the whole holds no
-- packet, the end of the stream if it is empty and an error if it is not.
pub read_packet-blocks :
    (codec : Codec) (parsers : TypeParsers) (tz : Text) (greeting : Option HelloRequest)
    (chunks : List (List ℕ)) (c : Connection)
    → All (λ chunk. is_empty chunk ≡ false) chunks
    → c.stream.incoming ≡ map bytes chunks
    → Reads
        (load codec parsers tz)
        (load-Framed codec cursor_extension read_bytes-Framed parsers tz)
        greeting
        c
        (c.buffer ++ joined chunks)
        (Packet.parse_packet
          (load codec parsers tz)
          greeting
          c.compress
          (c.buffer ++ joined chunks))
        (read_packet (load codec parsers tz) greeting c)
read_packet-blocks codec parsers tz greeting chunks c full events =
    read_packet-Reads (load codec parsers tz)
      (load-Framed codec cursor_extension read_bytes-Framed parsers tz) greeting chunks c full
      events
