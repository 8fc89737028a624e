-- ===== src/Server/Run.antt =====
-- `ClickHouseServer::run` of src/lib.rs.
use clickhouse_srv.Common.{ℕ, zero, suc, ◌+◌, List, [], ◌∷◌, length, Bool, Option, none, some}
use clickhouse_srv.Errors.{Outcome, ok, err, panicked, diverged}
use clickhouse_srv.Binary.Cursor.{cursor, Cursor}
use clickhouse_srv.Binary.Reader.{Reader}
use clickhouse_srv.Protocols.Packet.{Packet}
use clickhouse_srv.Server.World
use clickhouse_srv.Server.World.{
  Event, bytes, failed, Socket, Connection, World, Action, reset, default_state, new_context,
  new_connection, ◌>>=◌, ◌>>◌,
}
use clickhouse_srv.Server.Connection.{read_packet, write_error}
use clickhouse_srv.Server.Cmd.{Session, apply}

-- The bytes that a connection still has to hand to the parser, and the events that bring them.
abbrev pub pending_events : List Event → ℕ
pending_events [] = 0
pending_events (bytes chunk ∷ events) = length chunk + pending_events events
pending_events (failed e ∷ events) = pending_events events

abbrev pub pending : Connection → ℕ
pending c = length c.buffer + pending_events c.stream.incoming

module _ {B : Type 0} (load_block : Bool → Reader Cursor B) (block_is_empty : B → Bool)
    (session : Session B) where
  -- `ctx.state.reset()`
  unfoldable pub reset_context : World B → World B
  unfolding reset
  reset_context w = record w { ctx = record w.ctx { state = reset w.ctx.state } }

  -- One round but for its last step, the command of a packet.
  unfoldable pub after_read :
      Outcome (Option (Packet B)) → (Packet B → Action B (Unit {0})) → Action B (Unit {0})
  unfolding reset_context ◌>>=◌
  after_read (ok (some packet)) go w = go packet w
  after_read (ok none) go w = (ok tt, reset_context w)
  after_read (err e) go w = (do write_error e; World.lift (err e)) (reset_context w)
  after_read panicked go w = (panicked, w)
  after_read diverged go w = (diverged, w)

  unfoldable pub run_loop : ℕ → Action B (Unit {0})
  unfolding after_read ◌>>=◌
  run_loop zero w = (diverged, w)
  run_loop (suc fuel) w =
      let (o, connection) = read_packet load_block w.ctx.hello w.connection in
      after_read o (λ packet. do apply session block_is_empty packet; run_loop fuel)
        (record w { connection = connection })

  -- Each packet takes a byte at least, so as many rounds as bytes, and one more, are enough.
  unfoldable pub run : Socket → Outcome (Unit {0}) × World B
  run stream =
      let w : World B = record {
        ctx = new_context default_state;
        connection = new_connection stream;
      } in
      run_loop (suc (pending w.connection)) w
