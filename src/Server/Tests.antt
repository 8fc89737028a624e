-- ===== src/Server/Tests.antt =====
-- Concrete connections: a block is a number, an empty block is 0, and the session asks for data where
-- the query is not empty.
use clickhouse_srv.Common.{
  ℕ, ◌≡◌, refl, [], ◌∷◌, Bool, true, false, none, some, ◌==◌, arith, inr, if◌then◌else◌,
}
use clickhouse_srv.Common.Text.{text, hexadecimal}
use clickhouse_srv.Errors.{ok, err, driver, unknown_packet, to_string, is_would_block}
use clickhouse_srv.Binary.Varint.{varint}
use clickhouse_srv.Binary.Cursor.{cursor, Cursor, cursor_extension, read_bytes-Framed}
use clickhouse_srv.Binary.Reader.{Reader, raise}
use clickhouse_srv.Binary.Reader
use clickhouse_srv.Binary.RoundTrip.{read_uvarint-varint}
use clickhouse_srv.Binary.ReadEx.{read_uvarint}
use clickhouse_srv.Binary.Framing.{Framed, read_uvarint-Framed}
use clickhouse_srv.Protocols.Constants.{server_pong, server_end_of_stream}
use clickhouse_srv.Protocols.Hello.{HelloRequest, is_empty}
use clickhouse_srv.Protocols.Query.{QueryRequest, default_client_info}
use clickhouse_srv.Protocols.Packet.{ping, hello, query, block}
use clickhouse_srv.Protocols.Replies.{hello_bytes, exception_of}
use clickhouse_srv.Server.World.{
  Sender, ◌>>=◌, bytes, insert_prepare, Socket, Connection, World, Action, default_state,
  new_context, new_connection, reset,
}
use clickhouse_srv.Protocols.Packet
use clickhouse_srv.Column.StoredTests.{parsers}
use clickhouse_srv.Block.Tests.{codec}
use clickhouse_srv.Block.Compressed.{load}
use clickhouse_srv.Block.Framing.{load-Framed}
use clickhouse_srv.Server.Blocks.{read_packet-blocks}
use clickhouse_srv.Server.Connection.{read_packet, read_packet_loop, attempt, parsed}
use clickhouse_srv.Server.Connection
use clickhouse_srv.Server.Cmd.{Session, session_of, hello_response, apply}
use clickhouse_srv.Server.Run.{run, run_loop, reset_context}
use clickhouse_srv.Server.Chunks.{parse, Reads, read_packet-Reads}
use clickhouse_srv.Server.Replies.{wrote, asked, apply-ping, apply-hello, apply-query_select}
use clickhouse_srv.Server.Insert.{
  in_state, inserting, passed, ended, apply_blocks, apply-insert, apply-insert_query,
}
use clickhouse_srv.Server.Failures.{run_loop-read_failed}
use clickhouse_srv.Server.Invariant.{Consistent, apply-Consistent, run-Consistent}
use clickhouse_srv.Server.Keeps.{Keeps}

abbrev load_number : Bool → Reader Cursor ℕ
load_number compress = read_uvarint

number-Framed : (c : Bool) → Framed cursor_extension (load_number c)
number-Framed c = read_uvarint-Framed cursor_extension read_bytes-Framed

abbrev is_zero : ℕ → Bool
is_zero b = b == 0

-- A channel whose task notifies the end of the insert.
abbrev opened : Sender ℕ
opened = record { sent = []; room = 10; closed = false; notifies = true }

-- The session's code: no data for a query without text.
abbrev open_out : Action ℕ (Unit {0})
open_out w = (
  ok tt,
  in_state w (record w.ctx.state {
    out = if is_empty w.ctx.state.query then w.ctx.state.out else some opened;
  }),
)

abbrev session : Session ℕ
session = session_of open_out

open_out-Consistent : Keeps Consistent open_out
open_out-Consistent = record { at = λ w h. kept w (is_empty w.ctx.state.query) h }
  where
    kept :
        (w : World ℕ) (b : Bool)
        → Consistent w.ctx.state
        → Consistent (record w.ctx.state { out = if b then w.ctx.state.out else some opened })
    kept w true h = h
    kept w false h = inr λ p. cc p

abbrev socket : Socket
socket = record { incoming = bytes (2 ∷ []) ∷ bytes (0 ∷ 7 ∷ 4 ∷ []) ∷ []; faults = []; sent = [] }

abbrev connection : Connection
connection = new_connection socket

abbrev world : World ℕ
world = record { ctx = new_context default_state; connection = connection }

-- A block in two parts, with a ping behind it.
read_packet-Reads_example :
    Reads load_number number-Framed none connection
      (2 ∷ 0 ∷ 7 ∷ 4 ∷ [])
      (parse load_number number-Framed none true (2 ∷ 0 ∷ 7 ∷ 4 ∷ []))
      (read_packet load_number none connection)
read_packet-Reads_example =
    read_packet-Reads load_number number-Framed none ((2 ∷ []) ∷ (0 ∷ 7 ∷ 4 ∷ []) ∷ []) connection
      (refl, (refl, tt)) refl

-- The same reads, with the blocks of the source.
read_packet-blocks_example :
    Reads
      (load codec parsers (text "UTC"))
      (load-Framed codec cursor_extension read_bytes-Framed parsers (text "UTC"))
      none
      connection
      (2 ∷ 0 ∷ 7 ∷ 4 ∷ [])
      (Packet.parse_packet (load codec parsers (text "UTC")) none true (2 ∷ 0 ∷ 7 ∷ 4 ∷ []))
      (read_packet (load codec parsers (text "UTC")) none connection)
read_packet-blocks_example =
    read_packet-blocks codec parsers (text "UTC") none ((2 ∷ []) ∷ (0 ∷ 7 ∷ 4 ∷ []) ∷ []) connection
      (refl, (refl, tt)) refl

run-Consistent_example : Consistent (run load_number is_zero session socket).1.ctx.state
run-Consistent_example = run-Consistent session open_out-Consistent is_zero load_number socket

apply-Consistent_example : Keeps Consistent (apply session is_zero (block 7))
apply-Consistent_example = apply-Consistent session open_out-Consistent is_zero (block 7)

apply-ping_example : apply session is_zero ping world ≡ (ok tt, wrote world (varint server_pong))
apply-ping_example = apply-ping session is_zero world refl

abbrev greeting : HelloRequest
greeting = record {
  client_name = text "client";
  client_version_major = 20;
  client_version_minor = 8;
  client_revision = 54060;
  default_database = [];
  user = text "default";
  password = [];
  client_version_patch = 0;
}

apply-hello_example : apply session is_zero (hello greeting) world ≡ (
  ok tt,
  wrote
      (record world { ctx = record world.ctx { client_revision = 54060; hello = some greeting } })
      (hello_bytes (hello_response session) 54060),
)
apply-hello_example =
    apply-hello session is_zero greeting world
      (omega arith, omega arith, omega arith, omega arith, omega arith, omega arith, omega arith)
      refl

abbrev select : QueryRequest
select = record {
  query_id = [];
  client_info = default_client_info;
  stage = 2;
  compression = 1;
  query = [];
}

abbrev insert : QueryRequest
insert = record select { query = text "insert" }

apply-query_select_example :
    apply session is_zero (query select) world
    ≡ (ok tt, wrote (asked session is_zero select world) (varint server_end_of_stream))
apply-query_select_example =
    apply-query_select session is_zero select world (asked session is_zero select world) refl refl
      refl

-- The world in which the session has asked for data.
abbrev given : World ℕ
given =
    in_state world
      (record world.ctx.state { query = text "insert"; compression = 1; out = some opened })

apply-insert_query_example :
    (apply session is_zero (query insert) >>= λ done.
    apply_blocks session is_zero (0 ∷ 5 ∷ 6 ∷ 0 ∷ []))
      world
    ≡ (
      ok tt,
      wrote
          (in_state given (record (reset given.ctx.state) { sent_all_data = false }))
          (varint server_end_of_stream),
    )
apply-insert_query_example =
    apply-insert_query session is_zero insert world given opened (5 ∷ 6 ∷ []) 0 0 refl refl
      (omega arith) refl refl refl (refl, (refl, tt)) refl

abbrev waiting : World ℕ
waiting = in_state world (record world.ctx.state { stage = insert_prepare; out = some opened })

apply-insert_example :
    (apply_blocks session is_zero (0 ∷ 5 ∷ 6 ∷ []) waiting
      ≡ (ok tt, inserting session is_zero waiting (passed opened (5 ∷ 6 ∷ []))))
    × (apply session is_zero
          (block 0)
          (inserting session is_zero waiting (passed opened (5 ∷ 6 ∷ [])))
        ≡ (
          ok tt,
          wrote
              (in_state waiting
                (ended session is_zero (record waiting.ctx.state { out = some opened })))
              (varint server_end_of_stream),
        ))
apply-insert_example =
    apply-insert session is_zero waiting opened (5 ∷ 6 ∷ []) 0 0 refl refl (omega arith) refl refl
      refl (refl, (refl, tt)) refl

-- A packet of a kind that is not known.
abbrev unknown : World ℕ
unknown = record {
  ctx = new_context default_state;
  connection = record connection { buffer = 9 ∷ [] };
}

unknown_fails :
    read_packet load_number none unknown.connection
    ≡ (err (driver (unknown_packet 9)), unknown.connection)
unfolding read_packet read_packet_loop attempt Connection.parse_packet parsed Packet.parse_packet
    is_would_block Reader.◌>>=◌ Reader.continue raise varint
unknown_fails = rw (read_uvarint-varint 9 [] (omega arith))

run_loop-read_failed_example : run_loop load_number is_zero session 2 unknown ≡ (
  err (driver (unknown_packet 9)),
  wrote
      (reset_context load_number is_zero session unknown)
      (exception_of (driver (unknown_packet 9)) false),
)
unfolding to_string hexadecimal
run_loop-read_failed_example =
    run_loop-read_failed load_number is_zero session 1 unknown (driver (unknown_packet 9))
      unknown.connection unknown_fails (omega arith) refl
