-- ===== src/Server/Keeps.antt =====
-- Rules for actions that keep a property of the state of the query, with those of src/connection.rs.
use clickhouse_srv.Common.{ℕ, List}
use clickhouse_srv.Errors.{Error, Outcome, ok, err, panicked, diverged}
use clickhouse_srv.Binary.Cursor.{cursor}
use clickhouse_srv.Binary.Encoder.{Encode, uvarint}
use clickhouse_srv.Protocols.Constants.{server_end_of_stream}
use clickhouse_srv.Protocols.Response.{write_exception}
use clickhouse_srv.Server.World
use clickhouse_srv.Server.World.{QueryState, Socket, World, Action, pure, continue, ◌>>=◌}
use clickhouse_srv.Server.Connection.{
  write_bytes, encode, send_encoded, write_error, write_end_of_stream, on_socket,
}

-- An action that keeps a property of the state of the query, however it ends.
pub record Keeps {B A : Type 0} (P : QueryState B → Type 0) (m : Action B A) : Type 0 where
  pub at : (w : World B) → P w.ctx.state → P (m w).1.ctx.state

module _ {B : Type 0} (P : QueryState B → Type 0) where
  pub continue-Keeps :
      {A C : Type 0} (o : Outcome A) (f : A → Action B C) (w : World B)
      → ((a : A) → Keeps P (f a))
      → P w.ctx.state
      → P (continue o f w).1.ctx.state
  unfolding continue
  continue-Keeps (ok a) f w kf h = (kf a).at w h
  continue-Keeps (err e) f w kf h = h
  continue-Keeps panicked f w kf h = h
  continue-Keeps diverged f w kf h = h

  pub Keeps-bind :
      {A C : Type 0} (m : Action B A) (f : A → Action B C)
      → Keeps P m
      → ((a : A) → Keeps P (f a))
      → Keeps P (m >>= f)
  unfolding ◌>>=◌
  Keeps-bind m f km kf = record { at = λ w h. continue-Keeps (m w).0 f (m w).1 kf (km.at w h) }

  pub Keeps-pure : {A : Type 0} (a : A) → Keeps P (pure a)
  unfolding pure
  Keeps-pure a = record { at = λ w h. h }

  pub Keeps-lift : {A : Type 0} (o : Outcome A) → Keeps P (World.lift o)
  unfolding World.lift
  Keeps-lift o = record { at = λ w h. h }

  Keeps-on_socket : (f : Socket → Outcome (Unit {0}) × Socket) → Keeps P (on_socket f)
  unfolding on_socket
  Keeps-on_socket f = record { at = λ w h. h }

ruleset keeps_rules = (Keeps-bind, Keeps-pure, Keeps-lift, Keeps-on_socket)

module _ {B : Type 0} (P : QueryState B → Type 0) where
  pub Keeps-write_bytes : (bs : List ℕ) → Keeps P (write_bytes bs)
  unfolding write_bytes
  Keeps-write_bytes bs = search keeps_rules

  pub Keeps-encode : (f : Encode) → Keeps P (encode f)
  unfolding encode
  Keeps-encode f = search keeps_rules

  Keeps-send_encoded : (f : Encode) → Keeps P (send_encoded f)
  unfolding send_encoded
  Keeps-send_encoded f = search (keeps_rules, Keeps-encode, Keeps-write_bytes)

  pub Keeps-write_end_of_stream : Keeps P write_end_of_stream
  unfolding write_end_of_stream
  Keeps-write_end_of_stream = Keeps-send_encoded (uvarint server_end_of_stream)

  pub Keeps-write_error : (e : Error) → Keeps P (write_error e)
  unfolding write_error
  Keeps-write_error e = record {
    at = λ w h. (Keeps-send_encoded (write_exception e w.connection.with_stack_trace)).at w h;
  }
