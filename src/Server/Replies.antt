-- ===== src/Server/Replies.antt =====
-- What the client is sent for each packet, on a socket whose writes succeed.
use clickhouse_srv.Common.{
  ℕ, ◌≡◌, refl, min, List, [], ◌∷◌, ◌++◌, Bool, false, Option, none, some, arith,
}
use clickhouse_srv.Errors.{Error, ok}
use clickhouse_srv.Binary.Varint.{varint}
use clickhouse_srv.Binary.Encoder.{Encode}
use clickhouse_srv.Binary.Encoder.Writes.{Writes, Writes-uvarint}
use clickhouse_srv.Protocols.Constants.{server_pong, server_end_of_stream}
use clickhouse_srv.Protocols.Hello.{HelloRequest, is_empty}
use clickhouse_srv.Protocols.Query.{QueryRequest}
use clickhouse_srv.Protocols.Packet.{Packet, ping, hello, query}
use clickhouse_srv.Protocols.Replies.{
  HelloFits, hello_bytes, encode_hello-Writes, ErrorFits, exception_of, write_exception-Writes,
}
use clickhouse_srv.Server.World.{insert_prepare, Sender, World, pure, ◌>>=◌}
use clickhouse_srv.Server.Connection.{
  write_bytes, encode, send_encoded, write_error, write_end_of_stream, socket_call, on_socket,
}
use clickhouse_srv.Server.Cmd.{
  Session, hello_response, greet, apply_hello, after_query, apply_query, handle, apply,
}

-- The world after the socket took some bytes.
abbrev pub wrote : {B : Type 0} → World B → List ℕ → World B
wrote w bs = record w {
  connection = record w.connection {
    stream = record w.connection.stream { sent = w.connection.stream.sent ++ bs };
  };
}

-- No write of the socket will fail.
abbrev pub Healthy : {B : Type 0} → World B → Type 0
Healthy w = w.connection.stream.faults ≡ []

module _ {B : Type 0} where
  write_bytes-wrote :
      (bs : List ℕ) (w : World B) → Healthy w → write_bytes bs w ≡ (ok tt, wrote w bs)
  unfolding write_bytes on_socket socket_call ◌>>=◌
  write_bytes-wrote bs w h = rw h

  encode_wrote : (f : Encode) (bs : List ℕ) (w : World B) → Writes f bs → encode f w ≡ (ok bs, w)
  unfolding encode ◌>>=◌
  encode_wrote f bs w writes = rw (writes.at [])

  send_encoded-wrote :
      (f : Encode) (bs : List ℕ) (w : World B)
      → Writes f bs
      → Healthy w
      → send_encoded f w ≡ (ok tt, wrote w bs)
  unfolding send_encoded ◌>>=◌
  send_encoded-wrote f bs w writes h = rw (encode_wrote f bs w writes) (write_bytes-wrote bs w h)

  pub end_of_stream_wrote :
      (w : World B)
      → Healthy w
      → write_end_of_stream w ≡ (ok tt, wrote w (varint server_end_of_stream))
  unfolding write_end_of_stream
  end_of_stream_wrote w h = send_encoded-wrote _ _ w (Writes-uvarint _ (omega arith)) h

  module _ (session : Session B) (block_is_empty : B → Bool) where
    -- The command of a packet whose handler leaves bytes, and of one whose handler leaves none.
    apply-wrote :
        (p : Packet B) (w w' : World B) (bs : List ℕ)
        → handle session block_is_empty p w ≡ (ok bs, w')
        → is_empty bs ≡ false
        → Healthy w'
        → apply session block_is_empty p w ≡ (ok tt, wrote w' bs)
    unfolding apply ◌>>=◌
    apply-wrote p w w' bs e full h = rw e (rw full (write_bytes-wrote bs w' h))

    pub apply-quiet :
        (p : Packet B) (w w' : World B)
        → handle session block_is_empty p w ≡ (ok [], w')
        → apply session block_is_empty p w ≡ (ok tt, w')
    unfolding apply ◌>>=◌ pure
    apply-quiet p w w' e = rw e

    -- On a socket whose writes succeed a ping is answered with a pong and changes nothing else.
    pub apply-ping :
        (w : World B)
        → Healthy w
        → apply session block_is_empty ping w ≡ (ok tt, wrote w (varint server_pong))
    unfolding handle varint
    apply-ping w h =
        apply-wrote ping w w (4 ∷ [])
          (encode_wrote _ _ w (Writes-uvarint server_pong (omega arith))) refl h

    -- On a socket whose writes succeed, and for a session whose names and versions fit, a
    -- greeting is remembered, the protocol's revision is the lower of the two sides' revisions,
    -- and the client is sent the greeting of the server for that revision.
    pub apply-hello :
        (request : HelloRequest) (w : World B)
        → HelloFits (hello_response session)
        → Healthy w
        → let revision = min session.dbms_tcp_protocol_version request.client_revision in
          apply session block_is_empty (hello request) w ≡ (
            ok tt,
            wrote
                (record w {
                  ctx = record w.ctx { client_revision = revision; hello = some request };
                })
                (hello_bytes (hello_response session) revision),
          )
    unfolding handle apply_hello varint
    apply-hello request w fits h =
        apply-wrote (hello request) w (greet session request w) _
          (encode_wrote _ _ _ (encode_hello-Writes (hello_response session) _ fits)) refl h

    -- The world as the session's code finds it when it is handed a query.
    abbrev pub asked : QueryRequest → World B → World B
    asked q w = record w {
      ctx = record w.ctx {
        state = record w.ctx.state { query = q.query; compression = q.compression };
      };
    }

    selected :
        (o : Option (Sender B)) (w : World B)
        → o ≡ none
        → Healthy w
        → after_query session o w ≡ (ok [], wrote w (varint server_end_of_stream))
    unfolding after_query ◌>>=◌
    selected o w e h = rw e (rw (end_of_stream_wrote w h))

    -- On a socket whose writes succeed, a query that the session executes without asking for data
    -- is answered, after all that the session wrote, with one end of stream.
    pub apply-query_select :
        (q : QueryRequest) (w w' : World B)
        → session.execute_query (asked q w) ≡ (ok tt, w')
        → w'.ctx.state.out ≡ none
        → Healthy w'
        → apply session block_is_empty (query q) w ≡ (ok tt, wrote w' (varint server_end_of_stream))
    unfolding handle apply_query ◌>>=◌
    apply-query_select q w w' e out h =
        apply-quiet (query q) w _ (rw e (selected w'.ctx.state.out w' out h))

    -- A query that the session asks for data for waits for the data.
    pub query_waits :
        (q : QueryRequest) (w w' : World B) (out : Sender B)
        → session.execute_query (asked q w) ≡ (ok tt, w')
        → w'.ctx.state.out ≡ some out
        → apply session block_is_empty (query q) w ≡ (
          ok tt,
          record w' {
            ctx = record w'.ctx { state = record w'.ctx.state { stage = insert_prepare } };
          },
        )
    unfolding handle apply_query after_query ◌>>=◌
    query_waits q w w' out e given = apply-quiet (query q) w _ (rw e (rw given))

    -- On a socket whose writes succeed, an error that fits is sent to the client as an exception.
    pub write_error-wrote :
        (e : Error) (w : World B)
        → ErrorFits e
        → Healthy w
        → write_error e w ≡ (ok tt, wrote w (exception_of e w.connection.with_stack_trace))
    unfolding write_error
    write_error-wrote e w fits h = send_encoded-wrote _ _ w (write_exception-Writes e _ fits) h
