-- ===== src/Column/Memory.antt =====
-- src/types/column/list.rs: `List<T>`, the memory of a vector of a primitive type, as its bytes. The
-- memory is that of a little-endian machine.
use clickhouse_srv.Common.{ℕ, ◌*◌, ◌/◌, List, length, take, drop, ltb, if◌then◌else◌}
use clickhouse_srv.Errors.{Outcome, panicked}
use clickhouse_srv.Errors
use clickhouse_srv.Errors.Index.{slice}
use clickhouse_srv.Scalar.{Primitive, Carrier, scalar}
use clickhouse_srv.Binary.Reader.{Reader, Read, ◌>>◌}
use clickhouse_srv.Binary.ReadEx.{allocate, read_bytes}
use clickhouse_srv.Binary.Encoder.{Encode, write_bytes}

-- `mem::size_of::<T>()`
abbrev pub size_of : Primitive → ℕ
size_of p = length (scalar p).buffer

-- `List::len` and `List::at`
unfoldable pub mem_len : Primitive → List ℕ → ℕ
mem_len p memory = length memory / size_of p

unfoldable pub mem_at : (p : Primitive) → List ℕ → ℕ → Outcome (Carrier p)
unfolding mem_len
mem_at p memory i =
    if ltb i (mem_len p memory)
    then (scalar p).unmarshal (take (size_of p) (drop (i * size_of p) memory))
    else panicked

-- `save_data` of src/types/column/numeric.rs
unfoldable pub save_data : ℕ → List ℕ → ℕ → ℕ → Encode
save_data size memory start end e =
    Errors.◌>>=◌ (slice memory (start * size) (end * size)) λ bytes. write_bytes bytes e

-- `List::with_capacity`, `set_len` and a read of the whole memory.
unfoldable pub read_memory : {S : Type 0} ⦃r : Read S⦄ → Primitive → ℕ → Reader S (List ℕ)
read_memory p size = do allocate (size * size_of p); read_bytes (size * size_of p)
