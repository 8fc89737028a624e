-- ===== src/Column/Data.antt =====
-- The implementations of `ColumnData` under src/types/column whose values are in memory.
use clickhouse_srv.Common.{
  ℕ, zero, suc, ◌+◌, ◌-◌, ◌/◌, ◌%◌, ◌^◌, min, List, [], ◌∷◌, length, take, drop, ◌==◌,
  if◌then◌else◌,
}
use clickhouse_srv.Common.Text.{Text}
use clickhouse_srv.Common.Int.{ℤ}
use clickhouse_srv.Errors.{Outcome, ok, panicked, ◌>>=◌}
use clickhouse_srv.Errors.Index.{slice}
use clickhouse_srv.Scalar.{Primitive, p_u16, p_u32, p_u64, p_i64, u64}
use clickhouse_srv.Binary.Encoder.{Encode, skip, write_bytes, byte_string, write}
use clickhouse_srv.Binary.Encoder
use clickhouse_srv.Types.Decimal.{NoBits}
use clickhouse_srv.Types.SqlType.{
  SqlType, string, fixed_string, date, date_time, date_time32, date_time64, ipv4, ipv6, uuid,
  nullable, array, decimal_of, enum8, enum16,
}
use clickhouse_srv.Types.SqlType as Types
use clickhouse_srv.Column.StringPool.{StringPool, strings}
use clickhouse_srv.Column.StringPool as Pool
use clickhouse_srv.Column.Memory.{size_of, mem_len, mem_at, save_data}

-- The types that implement `IpVersion`.
pub data IpVersion : Type 0 where
  v_ipv4 v_ipv6 v_uuid : IpVersion

unfoldable pub ip_size : IpVersion → ℕ
ip_size v_ipv4 = 4
ip_size v_ipv6 = 16
ip_size v_uuid = 16

unfoldable pub ip_type : IpVersion → SqlType
ip_type v_ipv4 = ipv4
ip_type v_ipv6 = ipv6
ip_type v_uuid = uuid

pub data ColumnData : Type 0 where
  -- `VectorColumnData<T>`: the memory
  vector_column : Primitive → List ℕ → ColumnData
  -- `StringColumnData`
  string_column : StringPool → ColumnData
  -- `DateColumnData<u16>` and `DateColumnData<u32>`: the memory and the time zone
  date_column : List ℕ → Text → ColumnData
  date_time_column : List ℕ → Text → ColumnData
  -- `DateTime64ColumnData`: the memory, the precision and the time zone
  date_time64_column : List ℕ → ℕ → Text → ColumnData
  -- `IpColumnData<V>`
  ip_column : IpVersion → List ℕ → ColumnData
  -- `NullableColumnData`: the inner column and `nulls`
  nullable_column : ColumnData → List ℕ → ColumnData
  -- `FixedStringColumnData`: the buffer and `str_len`
  fixed_string_column : List ℕ → ℕ → ColumnData
  -- `ArrayColumnData`: the inner column and the memory of `offsets`
  array_column : ColumnData → List ℕ → ColumnData
  -- `DecimalColumnData`: the inner column, precision, scale and `nobits`
  decimal_column : ColumnData → ℕ → ℕ → NoBits → ColumnData
  -- `Enum8ColumnData` and `Enum16ColumnData`
  enum8_column : List (Text × ℤ) → ColumnData → ColumnData
  enum16_column : List (Text × ℤ) → ColumnData → ColumnData
  -- `ChunkColumnData`: the column, and the start and the end of the range
  chunk_column : ColumnData → ℕ → ℕ → ColumnData

unfoldable pub sql_type : ColumnData → Outcome SqlType
unfolding ip_type
sql_type (vector_column p memory) = Types.sql_type p
sql_type (string_column pool) = ok string
sql_type (date_column memory tz) = ok date
sql_type (date_time_column memory tz) = ok (date_time date_time32)
sql_type (date_time64_column memory precision tz) = ok (date_time (date_time64 precision tz))
sql_type (ip_column v inner) = ok (ip_type v)
sql_type (nullable_column inner nulls) = do inner_type ← sql_type inner; ok (nullable inner_type)
sql_type (fixed_string_column buffer str_len) = ok (fixed_string str_len)
sql_type (array_column inner offsets) = do inner_type ← sql_type inner; ok (array inner_type)
sql_type (decimal_column inner precision scale nobits) = ok (decimal_of precision scale)
sql_type (enum8_column values inner) = ok (enum8 values)
sql_type (enum16_column values inner) = ok (enum16 values)
sql_type (chunk_column inner start end) = sql_type inner

-- `ops::Range::len`
unfoldable pub range_len : ℕ → ℕ → ℕ
range_len start end = end - start

-- `NullableColumnData::len`, of the inner column's
unfoldable pub nullable_len : List ℕ → Outcome ℕ → Outcome ℕ
nullable_len nulls inner = do rows ← inner; if length nulls == rows then ok rows else panicked

-- `FixedStringColumnData::len`: a division by zero panics.
unfoldable pub fixed_string_len : List ℕ → ℕ → Outcome ℕ
fixed_string_len buffer str_len = if str_len == 0 then panicked else ok (length buffer / str_len)

unfoldable pub len : ColumnData → Outcome ℕ
unfolding mem_len ip_size range_len nullable_len fixed_string_len
len (vector_column p memory) = ok (mem_len p memory)
len (string_column pool) = ok (Pool.len pool)
len (date_column memory tz) = ok (mem_len p_u16 memory)
len (date_time_column memory tz) = ok (mem_len p_u32 memory)
len (date_time64_column memory precision tz) = ok (mem_len p_i64 memory)
len (ip_column v inner) = ok (length inner / ip_size v)
len (nullable_column inner nulls) = nullable_len nulls (len inner)
len (fixed_string_column buffer str_len) = fixed_string_len buffer str_len
len (array_column inner offsets) = ok (mem_len p_u64 offsets)
len (decimal_column inner precision scale nobits) = len inner
len (enum8_column values inner) = len inner
len (enum16_column values inner) = len inner
len (chunk_column inner start end) = ok (range_len start end)

unfoldable pub write_strings : List (List ℕ) → Encode
unfolding byte_string
write_strings [] = skip
write_strings (s ∷ ss) = Encoder.◌>>◌ (byte_string s) (write_strings ss)

-- The offsets from `i` on are written; the last of them, or 0, is the end of the inner column.
unfoldable pub save_offsets : List ℕ → ℕ → ℕ → ℕ → (ℕ → Encode) → Encode
unfolding mem_at
save_offsets offsets zero i offset then_save e = then_save offset e
save_offsets offsets (suc more) i offset then_save e = mem_at p_u64 offsets i >>= λ at.
    write u64 at e >>= save_offsets offsets more (i + 1) at then_save

-- `StringColumnData::save`
unfoldable pub string_save : StringPool → ℕ → ℕ → Encode
unfolding write_strings
string_save pool start end e =
    strings pool >>= λ ss. write_strings (take ((2 ^ 64 + end - start) % 2 ^ 64) (drop start ss)) e

-- The columns that hold another save it by `save_inner`: `NullableColumnData::save`,
-- `ArrayColumnData::save` and `ChunkColumnData::save`.
unfoldable pub nullable_save : (ℕ → ℕ → Encode) → List ℕ → ℕ → ℕ → Encode
nullable_save save_inner nulls start end e =
    slice nulls start end >>= λ bytes. write_bytes bytes e >>= save_inner start end

unfoldable pub array_save : (ℕ → ℕ → Encode) → List ℕ → ℕ → ℕ → Encode
unfolding save_offsets range_len
array_save save_inner offsets start end e =
    save_offsets offsets (range_len start end) start 0 (save_inner 0) e

unfoldable pub chunk_save : (ℕ → ℕ → Encode) → ℕ → ℕ → ℕ → ℕ → Encode
chunk_save save_inner from to start end e = save_inner (from + start) (min to (from + end)) e

unfoldable pub save : ColumnData → ℕ → ℕ → Encode
unfolding save_data ip_size string_save nullable_save array_save chunk_save
save (vector_column p memory) start end e = save_data (size_of p) memory start end e
save (string_column pool) start end e = string_save pool start end e
save (date_column memory tz) start end e = save_data 2 memory start end e
save (date_time_column memory tz) start end e = save_data 4 memory start end e
save (date_time64_column memory precision tz) start end e = panicked
save (ip_column v inner) start end e = save_data (ip_size v) inner start end e
save (nullable_column inner nulls) start end e = nullable_save (save inner) nulls start end e
save (fixed_string_column buffer str_len) start end e = save_data str_len buffer start end e
save (array_column inner offsets) start end e = array_save (save inner) offsets start end e
save (decimal_column inner precision scale nobits) start end e = save inner start end e
save (enum8_column values inner) start end e = save inner start end e
save (enum16_column values inner) start end e = save inner start end e
save (chunk_column inner from to) start end e = chunk_save (save inner) from to start end e
