-- ===== src/Protocols/Packet.antt =====
-- `Packet` of src/protocols/mod.rs, and src/binary/parser.rs. The format of blocks is a parameter:
-- `load_block compress` is `Block::load` with the time zone of the parser.
use clickhouse_srv.Common.{Bool, Option, none, some, ◌==◌, ◌||◌, if◌then◌else◌}
use clickhouse_srv.Errors.{driver, unexpected_packet, unknown_packet}
use clickhouse_srv.Binary.Reader.{Reader, Read, pure, raise, ◌>>=◌}
use clickhouse_srv.Binary.ReadEx.{read_uvarint, read_string}
use clickhouse_srv.Protocols.Constants.{
  client_hello, client_query, client_data, client_cancel, client_ping, client_scalar,
}
use clickhouse_srv.Protocols.Hello.{HelloRequest, read_hello}
use clickhouse_srv.Protocols.Query.{QueryRequest, read_query}

pub data Packet (B : Type 0) : Type 0 where
  ping cancel : Packet B
  hello : HelloRequest → Packet B
  query : QueryRequest → Packet B
  block : B → Packet B

module _ {S B : Type 0} ⦃r : Read S⦄ (load_block : Bool → Reader S B) where
  unfoldable pub parse_hello : Reader S (Packet B)
  parse_hello = do request ← read_hello; pure (hello request)

  unfoldable pub parse_query : Option HelloRequest → Bool → Reader S (Packet B)
  parse_query none compress = raise (driver unexpected_packet)
  parse_query (some request) compress = do q ← read_query request; pure (query q)

  unfoldable pub parse_data : Bool → Bool → Reader S (Packet B)
  parse_data scalar compress = do
    temporary_table ← read_string
    b ← load_block compress
    pure (block b)

  unfoldable pub parse_packet : Option HelloRequest → Bool → Reader S (Packet B)
  parse_packet greeting compress = do
    packet ← read_uvarint
    if packet == client_ping
        then pure ping
        else if packet == client_cancel
        then pure cancel
        else if packet == client_data || packet == client_scalar
        then parse_data (packet == client_scalar) compress
        else if packet == client_query
        then parse_query greeting compress
        else if packet == client_hello
        then parse_hello
        else raise (driver (unknown_packet packet))
