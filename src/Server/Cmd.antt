-- ===== src/Server/Cmd.antt =====
-- src/cmd.rs, and the trait `ClickHouseSession` of src/lib.rs. The session's own code is a
-- parameter, the field `execute_query`; so is the test of a block for columns, `block_is_empty`.
use clickhouse_srv.Common.{
  ℕ, zero, suc, List, [], ◌∷◌, ◌++◌, min, Bool, false, Option, none, some, if◌then◌else◌,
}
use clickhouse_srv.Common.Text.{Text, text}
use clickhouse_srv.Errors.{Outcome, ok, panicked, diverged}
use clickhouse_srv.Binary.Encoder.{uvarint}
use clickhouse_srv.Protocols.Constants.{server_pong}
use clickhouse_srv.Protocols.Hello.{HelloRequest, is_empty}
use clickhouse_srv.Protocols.Query.{QueryRequest}
use clickhouse_srv.Protocols.Packet.{Packet, ping, cancel, hello, query, block}
use clickhouse_srv.Protocols.Response.{HelloResponse, Progress, encode_hello}
use clickhouse_srv.Server.World
use clickhouse_srv.Server.World.{
  Stage, default, insert_prepare, insert_started, eos, Sender, World, Action, reset, pure, get,
  set_state, set_stage, notified, ◌>>=◌, ◌>>◌,
}
use clickhouse_srv.Server.Connection.{write_bytes, encode, write_end_of_stream}

pub record Session (B : Type 0) : Type 0 where
  pub execute_query : Action B (Unit {0})
  pub with_stack_trace : Bool
  pub dbms_name : Text
  pub dbms_version_major : ℕ
  pub dbms_version_minor : ℕ
  pub dbms_tcp_protocol_version : ℕ
  pub timezone : Text
  pub server_display_name : Text
  pub dbms_version_patch : ℕ
  pub get_progress : Progress

-- The methods that the trait provides.
abbrev pub session_of : {B : Type 0} → Action B (Unit {0}) → Session B
session_of execute_query = record {
  execute_query = execute_query;
  with_stack_trace = false;
  dbms_name = text "clickhouse-server";
  dbms_version_major = 19;
  dbms_version_minor = 17;
  dbms_tcp_protocol_version = 54428;
  timezone = text "UTC";
  server_display_name = text "clickhouse-server";
  dbms_version_patch = 1;
  get_progress = record { rows = 0; bytes = 0; total_rows = 0 };
}

module _ {B : Type 0} where
  -- `out.send(block).await.unwrap()`: a receiver that is gone is a panic, and a channel that stays full
  -- a wait that does not end.
  unfoldable pub send_block : B → Sender B → Outcome (Sender B)
  send_block b out = elim out.room [
    | zero ↦ if out.closed then panicked else diverged
    | suc room ↦ ok (record out { sent = out.sent ++ b ∷ []; room = room })
  ]

  module _ (session : Session B) where
    abbrev pub hello_response : HelloResponse
    hello_response = record {
      dbms_name = session.dbms_name;
      dbms_version_major = session.dbms_version_major;
      dbms_version_minor = session.dbms_version_minor;
      dbms_tcp_protocol_version = session.dbms_tcp_protocol_version;
      timezone = session.timezone;
      server_display_name = session.server_display_name;
      dbms_version_patch = session.dbms_version_patch;
    }

    unfoldable pub greet : HelloRequest → World B → World B
    greet request w = record w {
      ctx = record w.ctx {
        client_revision = min session.dbms_tcp_protocol_version request.client_revision;
        hello = some request;
      };
    }

    unfoldable pub apply_hello : HelloRequest → Action B (List ℕ)
    unfolding greet encode
    apply_hello request w =
        let w' = greet request w in encode (encode_hello hello_response w'.ctx.client_revision) w'

    -- After the query: an insert waits for data, anything else is finished.
    unfoldable pub after_query : Option (Sender B) → Action B (List ℕ)
    unfolding set_stage write_end_of_stream ◌>>=◌
    after_query (some out) = do set_stage insert_prepare; pure []
    after_query none = do write_end_of_stream; pure []

    unfoldable pub apply_query : QueryRequest → Action B (List ℕ)
    unfolding after_query set_state get ◌>>=◌
    apply_query request = do
      w ← get
      set_state (record w.ctx.state { query = request.query; compression = request.compression })
      session.execute_query
      after ← get
      after_query after.ctx.state.out

    -- An empty block moves an insert on: the first starts it, the next one ends it.
    unfoldable pub apply_empty_block : Stage → Action B (List ℕ)
    unfolding set_stage set_state get write_end_of_stream reset notified ◌>>=◌
    apply_empty_block default = pure []
    apply_empty_block insert_prepare = do set_stage insert_started; pure []
    apply_empty_block insert_started = do
      w ← get
      set_state (reset w.ctx.state)
      notified
      write_end_of_stream
      set_stage default
      pure []
    apply_empty_block eos = pure []

    unfoldable pub apply_full_block : B → Option (Sender B) → Action B (List ℕ)
    unfolding send_block set_state get ◌>>=◌
    apply_full_block b none = pure []
    apply_full_block b (some out) = do
      out' ← World.lift (send_block b out)
      w ← get
      set_state (record w.ctx.state { out = some out' })
      pure []

    module _ (block_is_empty : B → Bool) where
      -- The bytes that the encoder of `apply` is left with.
      unfoldable pub handle : Packet B → Action B (List ℕ)
      unfolding apply_hello apply_query apply_empty_block apply_full_block encode
      handle ping w = encode (uvarint server_pong) w
      handle cancel w = pure [] w
      handle (hello request) w = apply_hello request w
      handle (query request) w = apply_query request w
      handle (block b) w =
          if block_is_empty b
          then apply_empty_block w.ctx.state.stage w
          else apply_full_block b w.ctx.state.out w

      unfoldable pub apply : Packet B → Action B (Unit {0})
      unfolding handle write_bytes ◌>>=◌
      apply packet = do bs ← handle packet; if is_empty bs then pure tt else write_bytes bs
