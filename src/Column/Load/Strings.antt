-- ===== src/Column/Load/Strings.antt =====
-- Columns of strings on the wire.
use clickhouse_srv.Common.{
  inl, ℕ, ◌+◌, ◌-◌, ◌*◌, ◌%◌, ◌^◌, ◌<◌, ◌≡◌, refl, List, [], ◌∷◌, ◌++◌, length, take_all, arith,
  append_assoc, append-nil, All,
}
use clickhouse_srv.Errors.{Outcome, ok, err, panicked, diverged, ◌>>=◌}
use clickhouse_srv.Binary.Cursor.{cursor, Cursor}
use clickhouse_srv.Binary.Reader.{Reader, lift}
use clickhouse_srv.Binary.Reader
use clickhouse_srv.Binary.ReadEx.{read_bytes}
use clickhouse_srv.Binary.RoundTrip.{text_bytes}
use clickhouse_srv.Binary.Gives.{
  Gives, Gives-bind, Gives-free, Gives-map, Gives-pure, Gives-read_bytes, Gives-allocate,
  Gives-lift, number_then,
}
use clickhouse_srv.Binary.Encoder.{string}
use clickhouse_srv.Binary.Encoder.Writes.{Writes, Writes-seq, Writes-skip, Writes-string}
use clickhouse_srv.Column.StringPool.{
  StringPool, with_capacity, allocate, write_all, push_bytes, read_str_into_buffer,
}
use clickhouse_srv.Column.StringPool.Pushes.{chunk_size}
use clickhouse_srv.Column.StringPool.Contents.{Holds, Storable, push-Holds, strings-Holds}
use clickhouse_srv.Column.Data.{string_save, string_column, write_strings, save}
use clickhouse_srv.Column.Load.{load_strings, load_string_column}

-- The strings, each behind its length.
abbrev pub texts : List (List ℕ) → List ℕ
texts [] = []
texts (s ∷ ss) = text_bytes s ++ texts ss

Writes-write_strings :
    (ss : List (List ℕ)) → All (λ s. length s < 2 ^ 64) ss → Writes (write_strings ss) (texts ss)
unfolding write_strings string
Writes-write_strings [] h = Writes-skip
Writes-write_strings (s ∷ ss) h =
    Writes-seq _ _ _ _ (Writes-string s h.0) (Writes-write_strings ss h.1)

-- What follows the allocation, whatever that ends with.
abbrev into : ℕ → StringPool → Reader Cursor StringPool
into n allocated = Reader.◌>>=◌ (read_bytes n) λ bs. Reader.pure (write_all bs allocated)

Gives-allocated :
    (s : List ℕ) (o : Outcome StringPool)
    → Gives
        (Reader.◌>>=◌ (lift o) (into (length s)))
        s
        (o >>= λ allocated. ok (write_all s allocated))
unfolding Reader.◌>>=◌
Gives-allocated s (ok pool) =
    Gives-free (lift (ok pool)) (into (length s)) s pool _ (Gives-lift (ok pool) pool refl)
      (Gives-map _ (λ bs. write_all bs pool) s s (Gives-read_bytes (length s) s refl))
Gives-allocated s (err e) = record { at = λ rest. refl }
Gives-allocated s panicked = record { at = λ rest. refl }
Gives-allocated s diverged = record { at = λ rest. refl }

Gives-read_str :
    (pool : StringPool) (s : List ℕ)
    → length s < 2 ^ 64
    → Gives (read_str_into_buffer pool) (text_bytes s) (push_bytes s pool)
unfolding read_str_into_buffer push_bytes text_bytes
Gives-read_str pool s h =
    number_then (length s) _ s _ h (Gives-allocated s (allocate (length s) pool))

short : (capacity n : ℕ) → chunk_size capacity n < 2 ^ 63 → n < 2 ^ 64
short capacity n h = omega arith

pub Gives-load_strings :
    (pool : StringPool) (ss new : List (List ℕ))
    → Storable pool.capacity new
    → Holds pool ss
    → (pool' : StringPool) × Gives (load_strings (length new) pool) (texts new) (ok pool')
      × Holds pool' (ss ++ new)
unfolding load_strings
Gives-load_strings pool ss [] fits h = (pool, Gives-pure pool, rw append-nil h)
Gives-load_strings pool ss (s ∷ new) fits h =
    let (next, pushed, held, same) = push-Holds pool ss s fits.0 h in
    let (last, rest, all) = Gives-load_strings next (ss ++ s ∷ []) new (rw same fits.1) held in
    let step : Gives (read_str_into_buffer pool) (text_bytes s) (ok next) =
      rw (← pushed) (Gives-read_str pool s (short pool.capacity (length s) fits.0)) in
    (
      last,
      Gives-bind _ _ (text_bytes s) (texts new) next _ step rest,
      rw (← append_assoc ss (s ∷ []) new) all,
    )

-- A column of strings is read back as one that holds the same strings.
pub Gives-string_column :
    (ss : List (List ℕ))
    → length ss * 24 < 2 ^ 63
    → Storable (length ss) ss
    → (pool : StringPool) × Gives
        (load_string_column (length ss))
        (texts ss)
        (ok (string_column pool))
      × Holds pool ss
unfolding load_string_column with_capacity
Gives-string_column ss room fits =
    let (pool, gives, held) =
      Gives-load_strings (with_capacity (length ss)) [] ss fits (inl (refl, refl)) in
    (
      pool,
      Gives-free _ _ (texts ss) _ _ (Gives-allocate (length ss * 24) room)
          (Gives-map _ string_column (texts ss) pool gives),
      held,
    )

All-short :
    (capacity : ℕ) (ss : List (List ℕ)) → Storable capacity ss → All (λ s. length s < 2 ^ 64) ss
All-short capacity [] h = tt
All-short capacity (s ∷ ss) h = (short capacity (length s) h.0, All-short capacity ss h.1)

pub Writes-string_column :
    (pool : StringPool) (ss : List (List ℕ))
    → length ss < 2 ^ 64
    → Storable (length ss) ss
    → Holds pool ss
    → Writes (save (string_column pool) 0 (length ss)) (texts ss)
unfolding save string_save
Writes-string_column pool ss room fits held =
    let count : (2 ^ 64 + length ss - 0) % 2 ^ 64 ≡ length ss = omega arith in
    record {
      at = λ buffer. rw (strings-Holds pool ss held) (
          rw count (
            rw (take_all ss)
              ((Writes-write_strings ss (All-short (length ss) ss fits)).at buffer)));
    }
