-- ===== src/Server/Connection.antt =====
-- src/connection.rs
use clickhouse_srv.Common.{
  ℕ, List, [], ◌∷◌, ◌++◌, Bool, Option, none, some, drop, ltb, if◌then◌else◌,
}
use clickhouse_srv.Common.Text.{text}
use clickhouse_srv.Errors.{
  Error, IoError, Outcome, ok, err, panicked, diverged, other_error, is_would_block, of_io_error,
}
use clickhouse_srv.Binary.Cursor.{cursor, Cursor, position}
use clickhouse_srv.Binary.Reader.{Reader}
use clickhouse_srv.Binary.Encoder.{Encode, new_encoder, uvarint}
use clickhouse_srv.Protocols.Constants.{server_end_of_stream}
use clickhouse_srv.Protocols.Hello.{HelloRequest, is_empty}
use clickhouse_srv.Protocols.Packet.{Packet, query}
use clickhouse_srv.Protocols.Packet as Parser
use clickhouse_srv.Protocols.Response.{Progress, write_exception}
use clickhouse_srv.Protocols.Response as Response
use clickhouse_srv.Server.World.{
  Event, bytes, failed, Socket, Connection, Action, pure, lift, ◌>>=◌, ◌>>◌,
}

-- A query decides whether the blocks that follow are compressed.
unfoldable pub compress_after : {B : Type 0} → Packet B → Bool → Bool
compress_after (query q) compress = ltb 0 q.compression
compress_after _ compress = compress

abbrev pub reset_by_peer : Error
reset_by_peer = other_error (text "connection reset by peer")

module _ {B : Type 0} (load_block : Bool → Reader Cursor B) where
  -- What `Connection::parse_packet` makes of the parser's result.
  unfoldable pub parsed :
      Connection → Outcome (Packet B × Cursor) → Outcome (Option (Packet B)) × Connection
  parsed connection (ok (packet, rest)) = (
    ok (some packet),
    record connection {
      buffer = drop (position connection.buffer rest) connection.buffer;
      compress = compress_after packet connection.compress;
    },
  )
  parsed connection (err e) =
      if is_would_block e then (ok none, connection) else (err e, connection)
  parsed connection panicked = (panicked, connection)
  parsed connection diverged = (diverged, connection)

  unfoldable pub parse_packet :
      Option HelloRequest → Connection → Outcome (Option (Packet B)) × Connection
  unfolding parsed
  parse_packet greeting connection =
      parsed connection
        (Parser.parse_packet load_block greeting connection.compress connection.buffer)

  -- `read_buf` returned 0.
  unfoldable pub end_of_stream : Connection → Outcome (Option (Packet B)) × Connection
  end_of_stream connection =
      if is_empty connection.buffer then (ok none, connection) else (err reset_by_peer, connection)

  -- Only where the buffer holds no whole packet does the loop go on.
  unfoldable pub attempt :
      Outcome (Option (Packet B)) × Connection
      → (Connection → Outcome (Option (Packet B)) × Connection)
      → Outcome (Option (Packet B)) × Connection
  attempt (ok none, connection) more = more connection
  attempt (ok (some packet), connection) more = (ok (some packet), connection)
  attempt (err e, connection) more = (err e, connection)
  attempt (panicked, connection) more = (panicked, connection)
  attempt (diverged, connection) more = (diverged, connection)

  -- The events of the socket drive the loop.
  unfoldable pub read_packet_loop :
      Option HelloRequest → List Event → Connection → Outcome (Option (Packet B)) × Connection
  read_packet_loop greeting [] connection = attempt (parse_packet greeting connection) end_of_stream
  read_packet_loop greeting (bytes chunk ∷ events) connection =
      attempt (parse_packet greeting connection) λ c.
        let left = record c { stream = record c.stream { incoming = events } } in
        let rest = read_packet_loop greeting events (record left { buffer = c.buffer ++ chunk }) in
        if is_empty chunk then end_of_stream left else rest
  read_packet_loop greeting (failed e ∷ events) connection =
      attempt (parse_packet greeting connection)
        λ c. (err (of_io_error e), record c { stream = record c.stream { incoming = events } })

  unfoldable pub read_packet :
      Option HelloRequest → Connection → Outcome (Option (Packet B)) × Connection
  read_packet greeting connection = read_packet_loop greeting connection.stream.incoming connection

-- A write or a flush, with the result that the socket has ready for it.
unfoldable pub socket_call : Socket → Outcome (Unit {0}) × Socket
socket_call socket = after socket.faults
  where
    after : List (Option IoError) → Outcome (Unit {0}) × Socket
    after [] = (ok tt, socket)
    after (none ∷ faults) = (ok tt, record socket { faults = faults })
    after (some e ∷ faults) = (err (of_io_error e), record socket { faults = faults })

module _ {B : Type 0} where
  unfoldable pub on_socket : (Socket → Outcome (Unit {0}) × Socket) → Action B (Unit {0})
  on_socket f w =
      let (o, socket) = f w.connection.stream in
      (o, record w { connection = record w.connection { stream = socket } })

  -- `write_all`, then `flush`.
  unfoldable pub write_bytes : List ℕ → Action B (Unit {0})
  unfolding socket_call on_socket ◌>>=◌
  write_bytes bs = do
    on_socket socket_call
    on_socket λ socket. (ok tt, record socket { sent = socket.sent ++ bs })
    on_socket socket_call

  -- What an encoder that starts empty is left with.
  unfoldable pub encode : Encode → Action B (List ℕ)
  unfolding ◌>>=◌
  encode f = do encoder ← lift (f new_encoder); pure encoder.buffer

  unfoldable pub send_encoded : Encode → Action B (Unit {0})
  unfolding encode write_bytes ◌>>=◌
  send_encoded f = do bs ← encode f; write_bytes bs

  unfoldable pub write_end_of_stream : Action B (Unit {0})
  unfolding send_encoded
  write_end_of_stream = send_encoded (uvarint server_end_of_stream)

  unfoldable pub write_progress : Progress → ℕ → Action B (Unit {0})
  unfolding send_encoded
  write_progress progress client_revision =
      send_encoded (Response.write_progress progress client_revision)

  unfoldable pub write_error : Error → Action B (Unit {0})
  unfolding send_encoded
  write_error e w = send_encoded (write_exception e w.connection.with_stack_trace) w
