-- ===== src/Server/Invariant.antt =====
-- The stage and the channel of a query through the commands of src/cmd.rs and `run` of src/lib.rs.
use clickhouse_srv.Common.{
  ◌⊎◌, inl, inr, ℕ, zero, suc, ◌≡◌, ◌≢◌, refl, sym, ◌∙◌, List, [], ◌∷◌, Bool, true, false,
  Bool-cases, Option, none, some, if◌then◌else◌,
}
use clickhouse_srv.Errors.{Error, Outcome, ok, err, panicked, diverged}
use clickhouse_srv.Binary.Cursor.{cursor, Cursor}
use clickhouse_srv.Binary.Reader.{Reader}
use clickhouse_srv.Binary.Encoder.{uvarint}
use clickhouse_srv.Protocols.Constants.{server_pong}
use clickhouse_srv.Protocols.Response.{encode_hello}
use clickhouse_srv.Protocols.Hello.{is_empty}
use clickhouse_srv.Protocols.Query.{QueryRequest}
use clickhouse_srv.Protocols.Packet.{Packet, ping, cancel, hello, query, block}
use clickhouse_srv.Server.World
use clickhouse_srv.Server.World.{
  Stage, default, insert_prepare, insert_started, eos, Sender, QueryState, default_state,
  new_context, new_connection, Socket, World, Action, reset, pure, get, set_state, set_stage, wake,
  notified, ◌>>=◌, ◌>>◌,
}
use clickhouse_srv.Server.Connection.{write_bytes, write_error, write_end_of_stream, read_packet}
use clickhouse_srv.Server.Cmd.{
  Session, hello_response, greet, send_block, apply_empty_block, apply_full_block, apply_hello,
  apply_query, after_query, handle, apply,
}
use clickhouse_srv.Server.Run.{run_loop, after_read, reset_context, run, pending}
use clickhouse_srv.Server.Keeps.{
  Keeps, continue-Keeps, Keeps-bind, Keeps-pure, Keeps-lift, Keeps-write_bytes, Keeps-encode,
  Keeps-write_end_of_stream, Keeps-write_error,
}

-- A channel while an insert is open.
abbrev pub Consistent : {B : Type 0} → QueryState B → Type 0
Consistent state = (state.stage ≡ default) ⊎ (state.out ≢ none)

module _ {B : Type 0} (session : Session B) where
  after_query-Consistent :
      (w : World B) (out : Option (Sender B))
      → w.ctx.state.out ≡ out
      → Consistent w.ctx.state
      → Consistent (after_query session out w).1.ctx.state
  unfolding after_query ◌>>=◌ set_stage set_state pure
  after_query-Consistent w (some out) e h = inr λ n. some≢none (sym e ∙ n)
    where
      some≢none : some out ≢ none
      some≢none p = cc p
  after_query-Consistent w none e h =
      (Keeps-bind Consistent write_end_of_stream _ (Keeps-write_end_of_stream Consistent)
          λ u. Keeps-pure Consistent _).at
        w h

  to_default : Keeps Consistent (set_stage {B = B} default)
  unfolding set_stage set_state
  to_default = record { at = λ w h. inl refl }

  wake-Consistent : (permit : Bool) → Keeps {B = B} Consistent (wake permit)
  unfolding wake set_state
  wake-Consistent true = record { at = λ w h. h }
  wake-Consistent false = record { at = λ w h. h }

  notified-Consistent : Keeps {B = B} Consistent notified
  unfolding notified
  notified-Consistent = record { at = λ w h. (wake-Consistent w.ctx.state.sent_all_data).at w h }

  apply_empty_block-Consistent :
      (w : World B) (stage : Stage)
      → w.ctx.state.stage ≡ stage
      → Consistent w.ctx.state
      → Consistent (apply_empty_block session stage w).1.ctx.state
  unfolding apply_empty_block set_stage set_state pure get reset ◌>>=◌
  apply_empty_block-Consistent w default e h = h
  apply_empty_block-Consistent w insert_prepare e (inl d) = absurd (moved (sym e ∙ d))
    where
      moved : insert_prepare ≢ default
      moved p = cc p
  apply_empty_block-Consistent w insert_prepare e (inr given) = inr given
  apply_empty_block-Consistent w insert_started e h =
      (Keeps-bind Consistent notified _ notified-Consistent λ u.
          Keeps-bind Consistent write_end_of_stream _ (Keeps-write_end_of_stream Consistent) λ u.
            Keeps-bind Consistent (set_stage default) _ to_default λ u. Keeps-pure Consistent []).at
        (record w { ctx = record w.ctx { state = reset w.ctx.state } }) (inl refl)
  apply_empty_block-Consistent w eos e h = h

  replaced :
      (out : Sender B)
      → Keeps {B = B} {A = List ℕ} Consistent
          (get >>= λ w. set_state (record w.ctx.state { out = some out }) >> pure {A = List ℕ} [])
  unfolding ◌>>=◌ get set_state pure
  replaced out = record { at = λ w h. inr λ p. cc p }

  apply_full_block-Consistent :
      (b : B) (w : World B) (out : Option (Sender B))
      → Consistent w.ctx.state
      → Consistent (apply_full_block session b out w).1.ctx.state
  unfolding apply_full_block
  apply_full_block-Consistent b w none h = h
  apply_full_block-Consistent b w (some out) h =
      (Keeps-bind Consistent (World.lift (send_block b out)) _ (Keeps-lift Consistent _)
          λ out'. replaced out').at
        w h

  module _ (executes : Keeps Consistent session.execute_query) where
    apply_query-Consistent : (q : QueryRequest) → Keeps Consistent (apply_query session q)
    unfolding apply_query ◌>>=◌
    apply_query-Consistent q = record {
      at = λ w h.
          continue-Keeps Consistent _ _ _
            (λ u. record { at = λ w h. after_query-Consistent w w.ctx.state.out refl h })
            (executes.at
              (record w {
                ctx = record w.ctx {
                  state = record w.ctx.state { query = q.query; compression = q.compression };
                };
              })
              h);
    }

    module _ (block_is_empty : B → Bool) where
      block-Consistent : (b : B) → Keeps Consistent (handle session block_is_empty (block b))
      unfolding handle
      block-Consistent b = record {
        at = λ w h. elim (Bool-cases (block_is_empty b)) [
          | inl e ↦ rw e (apply_empty_block-Consistent w w.ctx.state.stage refl h)
          | inr e ↦ rw e (apply_full_block-Consistent b w w.ctx.state.out h)
        ];
      }

      handle-Consistent : (p : Packet B) → Keeps Consistent (handle session block_is_empty p)
      unfolding handle apply_hello
      handle-Consistent ping = Keeps-encode Consistent (uvarint server_pong)
      handle-Consistent cancel = Keeps-pure Consistent []
      handle-Consistent (hello request) = record {
        at = λ w h.
            (Keeps-encode Consistent (
                encode_hello (hello_response session)
                  (greet session request w).ctx.client_revision)).at
              (greet session request w) h;
      }
      handle-Consistent (query q) = apply_query-Consistent q
      handle-Consistent (block b) = block-Consistent b

      last_write :
          (bs : List ℕ) → Keeps {B = B} Consistent (if is_empty bs then pure tt else write_bytes bs)
      last_write [] = Keeps-pure Consistent tt
      last_write (x ∷ xs) = Keeps-write_bytes Consistent (x ∷ xs)

      -- Where the session's code keeps the invariant, the command of any packet keeps it, however it
      -- ends: outside its first stage, the query has a channel.
      pub apply-Consistent : (p : Packet B) → Keeps Consistent (apply session block_is_empty p)
      unfolding apply
      apply-Consistent p = Keeps-bind Consistent _ _ (handle-Consistent p) last_write

      module _ (load_block : Bool → Reader Cursor B) where
        write_failed :
            (e : Error) (w : World B)
            → Consistent
                ((write_error e >>= λ u. World.lift {A = Unit {0}} (err e))
                  (reset_context load_block block_is_empty session w)).1.ctx.state
        unfolding reset_context reset
        write_failed e w =
            (Keeps-bind Consistent (write_error e) _ (Keeps-write_error Consistent e)
                λ u. Keeps-lift Consistent _).at
              (reset_context load_block block_is_empty session w) (inl refl)

        after_read-Consistent :
            (o : Outcome (Option (Packet B))) (go : Packet B → Action B (Unit {0}))
            → ((p : Packet B) → Keeps Consistent (go p))
            → Keeps Consistent (after_read load_block block_is_empty session o go)
        unfolding after_read reset_context reset
        after_read-Consistent (ok (some p)) go kept = record { at = λ w h. (kept p).at w h }
        after_read-Consistent (ok none) go kept = record { at = λ w h. inl refl }
        after_read-Consistent (err e) go kept = record { at = λ w h. write_failed e w }
        after_read-Consistent panicked go kept = record { at = λ w h. h }
        after_read-Consistent diverged go kept = record { at = λ w h. h }

        run_loop-Consistent :
            (fuel : ℕ) → Keeps Consistent (run_loop load_block block_is_empty session fuel)
        unfolding run_loop
        run_loop-Consistent zero = record { at = λ w h. h }
        run_loop-Consistent (suc fuel) = record {
          at = λ w h.
              (after_read-Consistent (read_packet load_block w.ctx.hello w.connection).0 _ λ p.
                  Keeps-bind Consistent (apply session block_is_empty p) _ (apply-Consistent p)
                    λ u. run_loop-Consistent fuel).at
                (record w { connection = (read_packet load_block w.ctx.hello w.connection).1 }) h;
        }

        -- Where the session's code keeps the invariant, a connection ends, in whatever way, in a state
        -- that has it: outside its first stage, the query has a channel.
        pub run-Consistent :
            (stream : Socket)
            → Consistent (run load_block block_is_empty session stream).1.ctx.state
        unfolding run
        run-Consistent stream =
            (run_loop-Consistent (suc (pending (new_connection stream)))).at
              (record { ctx = new_context default_state; connection = new_connection stream })
              (inl refl)
