-- ===== src/Server/Insert.antt =====
-- An insert through the commands of src/cmd.rs.
use clickhouse_srv.Common.{
  ℕ, suc, ◌-◌, ◌≤◌, ◌≡◌, refl, ap, ◌∙◌, List, [], ◌∷◌, ◌++◌, length, ◌||◌, arith, Bool, true, false,
  Option, some, All, append_assoc, append-nil,
}
use std.Path.{fun_ext}
use clickhouse_srv.Errors.{Outcome, ok, err, panicked, diverged}
use clickhouse_srv.Protocols.Query.{QueryRequest}
use clickhouse_srv.Binary.Varint.{varint}
use clickhouse_srv.Protocols.Constants.{server_end_of_stream}
use clickhouse_srv.Protocols.Packet.{query, block}
use clickhouse_srv.Server.World.{
  Stage, insert_prepare, insert_started, Sender, QueryState, World, Action, dropped, reset, pure,
  wake, notified, set_state, continue, ◌>>=◌,
}
use clickhouse_srv.Server.Cmd.{
  Session, send_block, apply_empty_block, apply_full_block, handle, apply,
}
use clickhouse_srv.Server.Replies.{
  Healthy, wrote, asked, end_of_stream_wrote, apply-quiet, query_waits,
}

-- The world with another state of the query.
abbrev pub in_state : {B : Type 0} → World B → QueryState B → World B
in_state w state = record w { ctx = record w.ctx { state = state } }

-- A channel that has passed some more blocks on.
abbrev pub passed : {B : Type 0} → Sender B → List B → Sender B
passed out bs = record out { sent = out.sent ++ bs; room = out.room - length bs }

module _ {B : Type 0} (session : Session B) (block_is_empty : B → Bool) where
  -- The command of each block in turn, until one does not succeed.
  abbrev pub apply_blocks : List B → Action B (Unit {0})
  apply_blocks [] = pure tt
  apply_blocks (b ∷ bs) = apply session block_is_empty (block b) >>= λ done. apply_blocks bs

  empty_block :
      (stage : Stage) (b : B) (w w' : World B)
      → w.ctx.state.stage ≡ stage
      → block_is_empty b ≡ true
      → apply_empty_block session stage w ≡ (ok [], w')
      → apply session block_is_empty (block b) w ≡ (ok tt, w')
  unfolding handle
  empty_block stage b w w' at empty e =
      apply-quiet session block_is_empty (block b) w w'
        (rw empty (ap (λ (t : Stage). apply_empty_block session t w) at ∙ e))

  full_block :
      (out : Option (Sender B)) (b : B) (w w' : World B)
      → w.ctx.state.out ≡ out
      → block_is_empty b ≡ false
      → apply_full_block session b out w ≡ (ok [], w')
      → apply session block_is_empty (block b) w ≡ (ok tt, w')
  unfolding handle
  full_block out b w w' at full e =
      apply-quiet session block_is_empty (block b) w w'
        (rw full (ap (λ (t : Option (Sender B)). apply_full_block session b t w) at ∙ e))

  start :
      (b : B) (w : World B)
      → w.ctx.state.stage ≡ insert_prepare
      → block_is_empty b ≡ true
      → apply session block_is_empty (block b) w
        ≡ (ok tt, in_state w (record w.ctx.state { stage = insert_started }))
  unfolding apply_empty_block
  start b w e empty = empty_block insert_prepare b w _ e empty refl

  woken :
      (w : World B) (permit : Bool)
      → w.ctx.state.sent_all_data ≡ permit
      → permit ≡ true
      → notified w ≡ (ok tt, in_state w (record w.ctx.state { sent_all_data = false }))
  unfolding notified wake set_state
  woken w permit e given = rw (e ∙ given)

  -- The state after an insert whose end was notified.
  abbrev pub ended : QueryState B → QueryState B
  ended state = record (reset state) { sent_all_data = false }

  finish :
      (b : B) (w : World B)
      → w.ctx.state.stage ≡ insert_started
      → dropped w.ctx.state.out w.ctx.state.sent_all_data ≡ true
      → block_is_empty b ≡ true
      → Healthy w
      → apply session block_is_empty (block b) w
        ≡ (ok tt, wrote (in_state w (ended w.ctx.state)) (varint server_end_of_stream))
  unfolding apply_empty_block reset ◌>>=◌
  finish b w e notifies empty h = empty_block insert_started b w _ e empty (
      rw (woken (in_state w (reset w.ctx.state)) _ refl notifies)
        (rw (end_of_stream_wrote (in_state w (ended w.ctx.state)) h)))

  push :
      (out : Sender B) (b : B) (w : World B) (room : ℕ)
      → w.ctx.state.out ≡ some out
      → out.room ≡ suc room
      → block_is_empty b ≡ false
      → apply session block_is_empty (block b) w ≡ (
        ok tt,
        in_state w (record w.ctx.state {
          out = some (record out { sent = out.sent ++ b ∷ []; room = room });
        }),
      )
  unfolding apply_full_block send_block ◌>>=◌
  push out b w room e some_room full = full_block (some out) b w _ e full (rw some_room)

  -- What blocks with rows leave behind: the channel holds them, in their order.
  push-All :
      (bs : List B) (w : World B) (out : Sender B)
      → All (λ b. block_is_empty b ≡ false) bs
      → length bs ≤ out.room
      → w.ctx.state.out ≡ some out
      → apply_blocks bs w ≡ (ok tt, in_state w (record w.ctx.state { out = some (passed out bs) }))
  unfolding ◌>>=◌
  push-All [] w out full room e =
      let count : out.room - length {A = B} [] ≡ out.room = omega arith in
      rw (append-nil, count)
        (ap (λ (t : Option (Sender B)). (ok tt, in_state w (record w.ctx.state { out = t }))) e)
  push-All (b ∷ bs) w out full room e =
      let left : ℕ = out.room - 1 in
      let count : left - length bs ≡ out.room - length (b ∷ bs) = omega arith in
      rw (push out b w left e (omega arith) full.0) (
        push-All bs _ (record out { sent = out.sent ++ b ∷ []; room = left }) full.1 (omega arith)
          refl
        ∙ rw (append_assoc out.sent (b ∷ []) bs, count))

  -- The state of an insert that has passed on blocks.
  abbrev pub inserting : World B → Sender B → World B
  inserting w out = in_state w (record w.ctx.state { stage = insert_started; out = some out })

  -- On a socket whose writes succeed, and with a channel that takes all the blocks: an insert that
  -- waits for data, after an empty block and any number of blocks with rows, has passed these
  -- blocks, in their order, to the channel of the session behind what it held, and has sent
  -- nothing to the client. Where the end of the insert was notified before, or the task behind
  -- the channel notifies it when the channel is dropped, one more empty block resets the state, uses
  -- up the notification, and sends the client one end of stream.
  pub apply-insert :
      (w : World B) (out : Sender B) (bs : List B) (b b' : B)
      → w.ctx.state.stage ≡ insert_prepare
      → w.ctx.state.out ≡ some out
      → length bs ≤ out.room
      → (w.ctx.state.sent_all_data || out.notifies) ≡ true
      → Healthy w
      → block_is_empty b ≡ true
      → All (λ b. block_is_empty b ≡ false) bs
      → block_is_empty b' ≡ true
      → (apply_blocks (b ∷ bs) w ≡ (ok tt, inserting w (passed out bs)))
        × (apply session block_is_empty (block b') (inserting w (passed out bs)) ≡ (
          ok tt,
          wrote
              (in_state w (ended (record w.ctx.state { out = some out })))
              (varint server_end_of_stream),
        ))
  unfolding ◌>>=◌ reset dropped
  apply-insert w out bs b b' prepare given room notifies h empty full empty' = (
    rw (start b w prepare empty) (push-All bs _ out full room given),
    finish b' (inserting w (passed out bs)) refl notifies empty' h,
  )

  continue_assoc :
      {A C D : Type 0} (o : Outcome A) (f : A → Action B C) (g : C → Action B D) (w : World B)
      → continue o (λ a. f a >>= g) w ≡ continue (continue o f w).0 g (continue o f w).1
  unfolding continue ◌>>=◌
  continue_assoc (ok a) f g w = refl
  continue_assoc (err e) f g w = refl
  continue_assoc panicked f g w = refl
  continue_assoc diverged f g w = refl

  apply_blocks-append :
      (bs more : List B) (w : World B)
      → apply_blocks (bs ++ more) w ≡ (apply_blocks bs >>= λ done. apply_blocks more) w
  unfolding ◌>>=◌ pure continue
  apply_blocks-append [] more w = refl
  apply_blocks-append (b ∷ bs) more w =
      let (o, w') = apply session block_is_empty (block b) w in
      ap (λ (f : Unit {0} → Action B (Unit {0})). continue o f w')
        (fun_ext λ done. fun_ext λ v. apply_blocks-append bs more v)
      ∙ continue_assoc o (λ done. apply_blocks bs) (λ done. apply_blocks more) w'

  -- A query that the session opens a channel for, an empty block, blocks with rows and one more empty
  -- block, in this order, on a socket whose writes succeed and with a channel that takes all the
  -- blocks, and where the end of the insert was notified before, or the task behind the channel
  -- notifies it when the channel is dropped: after what the session wrote for the query, the
  -- client is sent one end of stream and nothing else, and the state is that of the session, reset
  -- and without a notification.
  pub apply-insert_query :
      (q : QueryRequest) (w w' : World B) (out : Sender B) (bs : List B) (b b' : B)
      → session.execute_query (asked session block_is_empty q w) ≡ (ok tt, w')
      → w'.ctx.state.out ≡ some out
      → length bs ≤ out.room
      → (w'.ctx.state.sent_all_data || out.notifies) ≡ true
      → Healthy w'
      → block_is_empty b ≡ true
      → All (λ b. block_is_empty b ≡ false) bs
      → block_is_empty b' ≡ true
      → (apply session block_is_empty (query q) >>= λ done. apply_blocks (b ∷ (bs ++ b' ∷ []))) w
        ≡ (
          ok tt,
          wrote
              (in_state w' (record (reset w'.ctx.state) { sent_all_data = false }))
              (varint server_end_of_stream),
        )
  unfolding ◌>>=◌ reset
  apply-insert_query q w w' out bs b b' e given room notifies h empty full empty' =
      let waiting : World B = in_state w' (record w'.ctx.state { stage = insert_prepare }) in
      let (passed_on, finished) =
        apply-insert waiting out bs b b' refl given room notifies h empty full empty' in
      rw (query_waits session block_is_empty q w w' out e given)
        (apply_blocks-append (b ∷ bs) (b' ∷ []) waiting ∙ rw (passed_on, finished))
