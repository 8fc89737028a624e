-- ===== src/Column/StringPool.antt =====
-- src/types/column/string_pool.rs: the bytes of strings in chunks of memory, and where each stands.
pub mod Chunks
pub mod Pushes
pub mod Points
pub mod Contents
use clickhouse_srv.Common.{
  ℕ, zero, suc, ◌+◌, ◌-◌, ◌*◌, ◌%◌, ◌^◌, max, List, [], ◌∷◌, ◌++◌, length, take, drop, replicate,
  ◌||◌, leb, ltb, if◌then◌else◌,
}
use clickhouse_srv.Errors.{Outcome, ok, panicked, diverged, ◌>>=◌}
use clickhouse_srv.Errors.Index.{index_at}
use clickhouse_srv.Binary.Reader
use clickhouse_srv.Binary.Reader.{Reader, Read}
use clickhouse_srv.Binary.ReadEx.{read_uvarint, read_bytes}
use clickhouse_srv.Protocols.Hello.{is_empty}

abbrev pub avg_str_size : ℕ
avg_str_size = 80

pub record StringPtr : Type 0 where
  pub chunk : ℕ
  pub shift : ℕ
  pub len : ℕ

pub record StringPool : Type 0 where
  pub chunks : List (List ℕ)
  pub pointers : List StringPtr
  pub position : ℕ
  pub capacity : ℕ

unfoldable pub with_capacity : ℕ → StringPool
with_capacity capacity = record { pointers = []; chunks = []; position = 0; capacity = capacity }

-- The length of the last chunk, less the position, on 64 bits.
unfoldable pub free_in : List (List ℕ) → ℕ → ℕ
free_in [] position = 0
free_in (chunk ∷ []) position = (2 ^ 64 + length chunk - position) % 2 ^ 64
free_in (chunk ∷ next ∷ chunks) position = free_in (next ∷ chunks) position

unfoldable pub free_space : StringPool → ℕ
unfolding free_in
free_space pool = free_in pool.chunks pool.position

-- `vec![0_u8; n]`
unfoldable pub zeros : ℕ → Outcome (List ℕ)
zeros n = if ltb n (2 ^ 63) then ok (replicate n 0) else panicked

unfoldable pub reserve : ℕ → StringPool → Outcome StringPool
unfolding zeros
reserve size pool = do
  chunk ← zeros (max (pool.capacity * avg_str_size % 2 ^ 64) size)
  ok (record pool { position = 0; chunks = pool.chunks ++ chunk ∷ [] })

-- The length of the last chunk; none is the `unwrap` of `None`.
unfoldable pub last_length : List (List ℕ) → Outcome ℕ
last_length [] = panicked
last_length (chunk ∷ []) = ok (length chunk)
last_length (chunk ∷ next ∷ chunks) = last_length (next ∷ chunks)

-- The slice that the source returns is the one that the last pointer names.
unfoldable pub try_allocate : ℕ → StringPool → Outcome StringPool
unfolding last_length
try_allocate size pool = do
  len ← last_length pool.chunks
  let allocated = record pool {
    position = pool.position + size;
    pointers =
        pool.pointers
        ++ record { len = size; shift = pool.position; chunk = length pool.chunks - 1 } ∷ [];
  }
  if leb (pool.position + size) len then ok allocated else panicked

unfoldable pub allocate_loop : ℕ → ℕ → StringPool → Outcome StringPool
unfolding free_space reserve try_allocate
allocate_loop zero size pool = diverged
allocate_loop (suc fuel) size pool =
    let again = reserve size pool >>= allocate_loop fuel size in
    if ltb (free_space pool) size || is_empty pool.chunks then again else try_allocate size pool

-- After a chunk was added it has room: two rounds are enough.
unfoldable pub allocate : ℕ → StringPool → Outcome StringPool
unfolding allocate_loop
allocate size pool = allocate_loop 2 size pool

-- `bs` over the bytes that stand at `at`.
abbrev pub overwrite : ℕ → List ℕ → List ℕ → List ℕ
overwrite at bs xs = take at xs ++ (bs ++ drop (at + length bs) xs)

unfoldable pub in_last : (List ℕ → List ℕ) → List (List ℕ) → List (List ℕ)
in_last f [] = []
in_last f (chunk ∷ []) = f chunk ∷ []
in_last f (chunk ∷ next ∷ chunks) = chunk ∷ in_last f (next ∷ chunks)

-- All of `bs` is written to the slice that was allocated last.
unfoldable pub write_all : List ℕ → StringPool → StringPool
unfolding in_last
write_all bs pool = record pool {
  chunks = in_last (overwrite (pool.position - length bs) bs) pool.chunks;
}

-- `allocate`, and a write to its slice: `StringColumnData::push`, and `From<Vec<T>>` for each string.
unfoldable pub push_bytes : List ℕ → StringPool → Outcome StringPool
unfolding allocate write_all
push_bytes bs pool = do allocated ← allocate (length bs) pool; ok (write_all bs allocated)

push_each : List (List ℕ) → StringPool → Outcome StringPool
push_each [] pool = ok pool
push_each (s ∷ source) pool = push_bytes s pool >>= push_each source

unfoldable pub from_vec : List (List ℕ) → Outcome StringPool
unfolding push_each with_capacity push_bytes
from_vec source = push_each source (with_capacity (length source))

-- `ReadEx::read_str_into_buffer`
unfoldable pub read_str_into_buffer : {S : Type 0} ⦃r : Read S⦄ → StringPool → Reader S StringPool
unfolding allocate write_all
read_str_into_buffer pool = Reader.◌>>=◌ read_uvarint λ str_len.
    Reader.◌>>=◌ (Reader.lift (allocate str_len pool))
      λ allocated. Reader.◌>>=◌ (read_bytes str_len) λ bs. Reader.pure (write_all bs allocated)

-- A chunk that is not there is undefined behaviour in the source, and here a panic.
unfoldable pub get : StringPool → ℕ → Outcome (List ℕ)
get pool index = do
  pointer ← index_at pool.pointers index
  chunk ← index_at pool.chunks pointer.chunk
  ok (take pointer.len (drop pointer.shift chunk))

unfoldable pub len : StringPool → ℕ
len pool = length pool.pointers

-- `strings`, and what its iterator hands out.
strings_from : ℕ → ℕ → StringPool → Outcome (List (List ℕ))
unfolding get
strings_from zero index pool = ok []
strings_from (suc more) index pool = do
  s ← get pool index
  rest ← strings_from more (index + 1) pool
  ok (s ∷ rest)

unfoldable pub strings : StringPool → Outcome (List (List ℕ))
unfolding strings_from len
strings pool = strings_from (len pool) 0 pool
