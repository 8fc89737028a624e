-- ===== src/Server/World.antt =====
-- The state of a connection: `Stage` of src/protocols/mod.rs, `QueryState` and `CHContext` of
-- src/lib.rs, `Connection` of src/connection.rs, and the socket and the channel as the rest of the
-- world shows them. `B` is the type of blocks.
use clickhouse_srv.Common.{ℕ, List, [], Bool, true, false, Option, none, some, ◌||◌}
use clickhouse_srv.Common.Text.{Text}
use clickhouse_srv.Errors.{IoError, Outcome, ok, err, panicked, diverged}
use clickhouse_srv.Protocols.Hello.{HelloRequest}

pub data Stage : Type 0 where
  default insert_prepare insert_started eos : Stage

-- `Sender<Block>`: the blocks that were sent, how many more the channel takes, and what becomes of a
-- send after these: the receiver is gone, or it leaves the channel full. `notifies` says whether the
-- task behind the receiver notifies `sent_all_data` when the channel is dropped.
pub record Sender (B : Type 0) : Type 0 where
  pub sent : List B
  pub room : ℕ
  pub closed : Bool
  pub notifies : Bool

-- `sent_all_data` is the permit of the `Notify`: whether the next wait on it comes to an end.
pub record QueryState (B : Type 0) : Type 0 where
  pub query_id : Text
  pub stage : Stage
  pub compression : ℕ
  pub query : Text
  pub is_cancelled : Bool
  pub is_connection_closed : Bool
  pub is_empty : Bool
  pub sent_all_data : Bool
  pub out : Option (Sender B)

abbrev pub default_state : {B : Type 0} → QueryState B
default_state = record {
  query_id = [];
  stage = default;
  compression = 0;
  query = [];
  is_cancelled = false;
  is_connection_closed = false;
  is_empty = false;
  sent_all_data = false;
  out = none;
}

-- The permit after a sender was dropped: its receiver comes to an end, and may notify.
unfoldable pub dropped : {B : Type 0} → Option (Sender B) → Bool → Bool
dropped none permit = permit
dropped (some out) permit = permit || out.notifies

-- The assignment of `None` to `out` drops the sender.
unfoldable pub reset : {B : Type 0} → QueryState B → QueryState B
unfolding dropped
reset state = record state {
  stage = default;
  is_cancelled = false;
  is_connection_closed = false;
  is_empty = false;
  sent_all_data = dropped state.out state.sent_all_data;
  out = none;
}

pub record Context (B : Type 0) : Type 0 where
  pub state : QueryState B
  pub client_revision : ℕ
  pub hello : Option HelloRequest

-- `CHContext::new`
abbrev pub new_context : {B : Type 0} → QueryState B → Context B
new_context state = record { state = state; client_revision = 0; hello = none }

-- What the socket reports to one read: bytes, or an error. After the last event the peer has closed.
pub data Event : Type 0 where
  bytes : List ℕ → Event
  failed : IoError → Event

-- `faults` are the results of the writes and flushes to come, `none` for success; after the last
-- all succeed. `sent` holds what the writes took.
pub record Socket : Type 0 where
  pub incoming : List Event
  pub faults : List (Option IoError)
  pub sent : List ℕ

pub record Connection : Type 0 where
  pub buffer : List ℕ
  pub stream : Socket
  pub with_stack_trace : Bool
  pub compress : Bool

-- `Connection::new`
abbrev pub new_connection : Socket → Connection
new_connection stream = record {
  buffer = [];
  stream = stream;
  with_stack_trace = false;
  compress = true;
}

pub record World (B : Type 0) : Type 0 where
  pub ctx : Context B
  pub connection : Connection

-- Code that has `&mut` of the context and the connection: what it changed before an error stays.
abbrev pub Action : Type 0 → Type 0 → Type 0
Action B A = World B → Outcome A × World B

module _ {B A : Type 0} where
  unfoldable pub pure : A → Action B A
  pure a w = (ok a, w)

  unfoldable pub lift : Outcome A → Action B A
  lift o w = (o, w)

module _ {B A C : Type 0} where
  unfoldable pub continue : Outcome A → (A → Action B C) → Action B C
  continue (ok a) f w = f a w
  continue (err e) f w = (err e, w)
  continue panicked f w = (panicked, w)
  continue diverged f w = (diverged, w)

  infixl 5 ◌>>=◌ ◌>>◌
  unfoldable pub ◌>>=◌ : Action B A → (A → Action B C) → Action B C
  unfolding pure lift continue
  ◌>>=◌ m f w = let (o, w') = m w in continue o f w'

  abbrev pub ◌>>◌ : Action B A → Action B C → Action B C
  m >> n = m >>= λ _. n

module _ {B : Type 0} where
  unfoldable pub get : Action B (World B)
  get w = (ok w, w)

  unfoldable pub set_state : QueryState B → Action B (Unit {0})
  set_state state w = (ok tt, record w { ctx = record w.ctx { state = state } })

  unfoldable pub set_stage : Stage → Action B (Unit {0})
  unfolding set_state
  set_stage stage w = set_state (record w.ctx.state { stage = stage }) w

  -- `sent_all_data.notified().await`: with no permit, and none to come, the wait does not end.
  unfoldable pub wake : Bool → Action B (Unit {0})
  unfolding set_state
  wake true w = set_state (record w.ctx.state { sent_all_data = false }) w
  wake false w = (diverged, w)

  unfoldable pub notified : Action B (Unit {0})
  unfolding wake
  notified w = wake w.ctx.state.sent_all_data w
