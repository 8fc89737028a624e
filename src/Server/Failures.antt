-- ===== src/Server/Failures.antt =====
-- What `run` of src/lib.rs does with an error of `read_packet`.
use clickhouse_srv.Common.{ℕ, suc, ◌≡◌, refl, [], Bool}
use clickhouse_srv.Errors.{Error, err}
use clickhouse_srv.Binary.Cursor.{cursor, Cursor}
use clickhouse_srv.Binary.Reader.{Reader}
use clickhouse_srv.Protocols.Replies.{ErrorFits, exception_of}
use clickhouse_srv.Server.World
use clickhouse_srv.Server.World.{Connection, World, ◌>>=◌}
use clickhouse_srv.Server.Connection.{read_packet}
use clickhouse_srv.Server.Cmd.{Session}
use clickhouse_srv.Server.Run.{run_loop, after_read, reset_context}
use clickhouse_srv.Server.Replies.{wrote, write_error-wrote}

-- An error that `read_packet` ends with, where it fits in an exception and the writes of the socket
-- succeed, ends the connection with that error: the state of the query is reset, and the client is sent
-- the exception for the error and nothing else.
pub run_loop-read_failed :
    {B : Type 0} (load_block : Bool → Reader Cursor B) (block_is_empty : B → Bool)
    (session : Session B) (fuel : ℕ) (w : World B) (e : Error) (c : Connection)
    → read_packet load_block w.ctx.hello w.connection ≡ (err e, c)
    → ErrorFits e
    → c.stream.faults ≡ []
    → run_loop load_block block_is_empty session (suc fuel) w ≡ (
      err e,
      wrote
          (reset_context load_block block_is_empty session (record w { connection = c }))
          (exception_of e c.with_stack_trace),
    )
unfolding run_loop after_read reset_context World.lift ◌>>=◌
run_loop-read_failed load_block block_is_empty session fuel w e c failed fits h = rw failed (
    rw
      (write_error-wrote session block_is_empty e
        (reset_context load_block block_is_empty session (record w { connection = c })) fits h)
      refl)
