-- ===== src/Server/Chunks.antt =====
-- `read_packet` of src/connection.rs on a stream that comes in chunks.
use clickhouse_srv.Common.{
  ℕ, ◌-◌, ◌≡◌, refl, sym, ap, ◌∙◌, List, [], ◌∷◌, ◌++◌, map, Bool, true, false, Option, none, some,
  length, drop, All, arith, if◌then◌else◌, append-nil, append_assoc, length-append, drop_prefix,
  Bool-cases, inl, inr,
}
use mathlib.Core.Path.{subst}
use clickhouse_srv.Errors.{Error, Outcome, ok, err, panicked, diverged, is_would_block}
use clickhouse_srv.Binary.Reader.{Reader}
use clickhouse_srv.Binary.Cursor.{cursor, Cursor, position, cursor_extension, read_bytes-Framed}
use clickhouse_srv.Binary.Framing.{Framed, Agrees}
use clickhouse_srv.Protocols.Hello.{HelloRequest, is_empty}
use clickhouse_srv.Protocols.Packet.{Packet}
use clickhouse_srv.Protocols.Packet
use clickhouse_srv.Protocols.Framing.{parse_packet-Framed}
use clickhouse_srv.Server.World.{Event, bytes, Connection}
use clickhouse_srv.Server.Connection.{
  compress_after, parse_packet, attempt, end_of_stream, read_packet_loop, read_packet,
  reset_by_peer,
}

-- All that chunks hold.
abbrev pub joined : List (List ℕ) → List ℕ
joined [] = []
joined (chunk ∷ chunks) = chunk ++ joined chunks

advanced :
    (buffer front rest : List ℕ)
    → buffer ≡ front ++ rest
    → drop (position buffer rest) buffer ≡ rest
unfolding position
advanced buffer front rest e = rw e (rw gone (drop_prefix front rest))
  where
    gone : length (front ++ rest) - length rest ≡ length front
    gone = omega (arith, length-append front rest)

first_of_eq : {A C : Type 0} {r : A × C} {a : A} {c : C} → r ≡ (a, c) → r.0 ≡ a
first_of_eq e = ap (λ t. t.0) e

module _ {B : Type 0} (load_block : Bool → Reader Cursor B)
    (loads : (c : Bool) → Framed cursor_extension (load_block c))
    (greeting : Option HelloRequest) where
  -- The parser on a buffer, with the compression that a connection has.
  abbrev pub parse : Bool → List ℕ → Outcome (Packet B × Cursor)
  parse compress buffer = Packet.parse_packet load_block greeting compress buffer

  parse-Agrees :
      (compress : Bool) (part more : List ℕ)
      → Agrees cursor_extension part more (parse compress part) (parse compress (part ++ more))
  parse-Agrees compress part more =
      (parse_packet-Framed cursor_extension read_bytes-Framed load_block loads greeting compress).at
        part more

  -- One attempt, by the parser's result: a packet, a want of bytes, an error.
  module _ (c : Connection) (more : Connection → Outcome (Option (Packet B)) × Connection) where
    attempt_packet :
        (p : Packet B) (rest front : List ℕ)
        → parse c.compress c.buffer ≡ ok (p, rest)
        → c.buffer ≡ front ++ rest
        → attempt load_block (parse_packet load_block greeting c) more
          ≡ (ok (some p), record c { buffer = rest; compress = compress_after p c.compress })
    unfolding attempt parse_packet
    attempt_packet p rest front e split = rw e (
        ap
          (λ (b : List ℕ).
            (ok (some p), record c { buffer = b; compress = compress_after p c.compress }))
          (advanced c.buffer front rest split))

    attempt_blocked :
        (e : Error)
        → parse c.compress c.buffer ≡ err e
        → is_would_block e ≡ true
        → attempt load_block (parse_packet load_block greeting c) more ≡ more c
    unfolding attempt parse_packet
    attempt_blocked e h b = rw h (rw b)

    attempt_error :
        (e : Error)
        → parse c.compress c.buffer ≡ err e
        → is_would_block e ≡ false
        → attempt load_block (parse_packet load_block greeting c) more ≡ (err e, c)
    unfolding attempt parse_packet
    attempt_error e h b = rw h (rw b)

    attempt_panicked :
        parse c.compress c.buffer ≡ panicked
        → attempt load_block (parse_packet load_block greeting c) more ≡ (panicked, c)
    unfolding attempt parse_packet
    attempt_panicked h = rw h

    attempt_diverged :
        parse c.compress c.buffer ≡ diverged
        → attempt load_block (parse_packet load_block greeting c) more ≡ (diverged, c)
    unfolding attempt parse_packet
    attempt_diverged h = rw h

  -- A read that found a packet: the connection goes on with the bytes `rest`.
  abbrev pub Found :
      Connection → Packet B → List ℕ → Outcome (Option (Packet B)) × Connection → Type 0
  Found c p rest result =
      (c' : Connection) × (left : List (List ℕ)) × (result ≡ (ok (some p), c'))
      × (c'.stream.incoming ≡ map bytes left)
      × (c'.buffer ++ joined left ≡ rest)
      × (c'.compress ≡ compress_after p c.compress)

  -- The read, by what the parser makes of the whole input.
  abbrev pub Reads :
      Connection
      → List ℕ
      → Outcome (Packet B × Cursor)
      → Outcome (Option (Packet B)) × Connection
      → Type 0
  Reads c whole (ok (p, rest)) result = Found c p rest result
  Reads c whole (err e) result =
      if is_would_block e
      then (result.0 ≡ (if is_empty whole then ok none else err reset_by_peer))
      else (result.0 ≡ err e)
  Reads c whole panicked result = result.0 ≡ panicked
  Reads c whole diverged result = result.0 ≡ diverged

  abbrev Goal : List (List ℕ) → Connection → Type 0
  Goal chunks c =
      Reads c (c.buffer ++ joined chunks) (parse c.compress (c.buffer ++ joined chunks))
        (read_packet_loop load_block greeting (map bytes chunks) c)

  -- The parser ended on the part of the input that is in the buffer: it ends so on the whole.
  ended :
      (chunks : List (List ℕ)) (c : Connection)
      (more : Connection → Outcome (Option (Packet B)) × Connection)
      (o : Outcome (Packet B × Cursor))
      → c.stream.incoming ≡ map bytes chunks
      → read_packet_loop load_block greeting (map bytes chunks) c
        ≡ attempt load_block (parse_packet load_block greeting c) more
      → parse c.compress c.buffer ≡ o
      → Agrees cursor_extension c.buffer
          (joined chunks)
          o
          (parse c.compress (c.buffer ++ joined chunks))
      → ((e : Error) → o ≡ err e → is_would_block e ≡ true → Goal chunks c)
      → Goal chunks c
  ended chunks c more (ok (p, rest)) events loop e (whole, (front, split)) blocked =
      rw whole (_, chunks, loop ∙ attempt_packet c more p rest front e split, events, refl, refl)
  ended chunks c more (err e) events loop h agrees blocked = elim (Bool-cases (is_would_block e)) [
    | inl b ↦ blocked e refl b
    | inr b ↦ rw (agrees b) (rw b (first_of_eq (loop ∙ attempt_error c more e h b)))
  ]
  ended chunks c more panicked events loop e whole blocked =
      rw whole (first_of_eq (loop ∙ attempt_panicked c more e))
  ended chunks c more diverged events loop e whole blocked =
      rw whole (first_of_eq (loop ∙ attempt_diverged c more e))

  end_result :
      (c : Connection)
      → (end_of_stream load_block c).0 ≡ (if is_empty c.buffer then ok none else err reset_by_peer)
  unfolding end_of_stream
  end_result c = elim (Bool-cases (is_empty c.buffer)) [ inl e ↦ rw e | inr e ↦ rw e ]

  -- The connection after a read of `chunk`, with `events` to come.
  abbrev grown : Connection → List ℕ → List Event → Connection
  grown c chunk events = record c {
    stream = record c.stream { incoming = events };
    buffer = c.buffer ++ chunk;
  }

  blocked_last :
      (c : Connection) (e : Error)
      → parse c.compress c.buffer ≡ err e
      → is_would_block e ≡ true
      → Goal [] c
  unfolding read_packet_loop
  blocked_last c e h b = rw append-nil (
      rw h
        (rw b (ap (λ r. r.0) (attempt_blocked c (end_of_stream load_block) e h b) ∙ end_result c)))

  blocked_next :
      (chunk : List ℕ) (events : List Event) (c : Connection) (e : Error)
      → is_empty chunk ≡ false
      → parse c.compress c.buffer ≡ err e
      → is_would_block e ≡ true
      → read_packet_loop load_block greeting (bytes chunk ∷ events) c
        ≡ read_packet_loop load_block greeting events (grown c chunk events)
  unfolding read_packet_loop
  blocked_next chunk events c e full h b = attempt_blocked c _ e h b ∙ rw full

  loop_Reads :
      (chunks : List (List ℕ)) (c : Connection)
      → All (λ chunk. is_empty chunk ≡ false) chunks
      → c.stream.incoming ≡ map bytes chunks
      → Goal chunks c
  unfolding read_packet_loop
  loop_Reads [] c full events =
      ended [] c (end_of_stream load_block) (parse c.compress c.buffer) events refl refl
        (parse-Agrees c.compress c.buffer []) (λ e h b. blocked_last c e h b)
  loop_Reads (chunk ∷ chunks) c full events =
      ended (chunk ∷ chunks) c _ (parse c.compress c.buffer) events refl refl
        (parse-Agrees c.compress c.buffer (chunk ++ joined chunks))
        λ e h b. rw (blocked_next chunk (map bytes chunks) c e full.0 h b) (
          rw (← append_assoc c.buffer chunk (joined chunks))
            (loop_Reads chunks (grown c chunk (map bytes chunks)) full.1 refl))

  -- If the format of blocks is framed, and the socket brings the bytes still to come in any reads
  -- that are not empty and then closes, `read_packet` gives the packet at the front of the whole
  -- input and keeps what follows it; or the error that the parser ends with on the whole; or,
  -- where the whole holds no packet, the end of the stream if it is empty and an error if it is
  -- not.
  pub read_packet-Reads :
      (chunks : List (List ℕ)) (c : Connection)
      → All (λ chunk. is_empty chunk ≡ false) chunks
      → c.stream.incoming ≡ map bytes chunks
      → Reads c
          (c.buffer ++ joined chunks)
          (parse c.compress (c.buffer ++ joined chunks))
          (read_packet load_block greeting c)
  unfolding read_packet
  read_packet-Reads chunks c full events =
      subst
        (λ (t : List Event).
          Reads c (c.buffer ++ joined chunks) (parse c.compress (c.buffer ++ joined chunks))
            (read_packet_loop load_block greeting t c))
        (sym events) (loop_Reads chunks c full events)
