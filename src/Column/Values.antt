-- ===== src/Column/Values.antt =====
-- `ColumnData::at`: the values of src/types/value_ref.rs that stand in a column.
pub mod Rows
use clickhouse_srv.Common.{ℕ, zero, suc, ◌+◌, ◌-◌, ◌*◌, ◌^◌, List, ltb, leb, ◌==◌, if◌then◌else◌}
use clickhouse_srv.Common.Text.{Text}
use clickhouse_srv.Common.Int.{ℤ}
use clickhouse_srv.Errors.{Outcome, ok, panicked, ◌>>=◌}
use clickhouse_srv.Errors.Index.{index_at, slice}
use clickhouse_srv.Scalar.{
  Primitive, p_u8, p_u16, p_u32, p_u64, p_i8, p_i16, p_i32, p_i64, p_f32, p_f64, p_bool, Carrier,
}
use clickhouse_srv.Types.Decimal.{Decimal, NoBits, n32, n64}
use clickhouse_srv.Types.SqlType.{SqlType}
use clickhouse_srv.Column.StringPool.{StringPool}
use clickhouse_srv.Column.StringPool as Pool
use clickhouse_srv.Column.Memory.{mem_at}
use clickhouse_srv.Column.Data.{
  IpVersion, v_ipv4, v_ipv6, v_uuid, ip_size, ColumnData, vector_column, string_column, date_column,
  date_time_column, date_time64_column, ip_column, nullable_column, fixed_string_column,
  array_column, decimal_column, enum8_column, enum16_column, chunk_column, sql_type, range_len,
}

-- `Nullable` has one constructor for each side of its `Either`.
mutual
  pub data ValueRef : Type 0 where
    uint8 uint16 uint32 uint64 : ℕ → ValueRef
    int8 int16 int32 int64 : ℤ → ValueRef
    string : List ℕ → ValueRef
    float32 float64 : ℕ → ValueRef
    date date_time : ℕ → Text → ValueRef
    date_time64 : ℤ → ℕ → Text → ValueRef
    null : SqlType → ValueRef
    not_null : ValueRef → ValueRef
    array : SqlType → ValueRefs → ValueRef
    decimal : Decimal → ValueRef
    ipv4 ipv6 uuid : List ℕ → ValueRef
    enum16 enum8 : List (Text × ℤ) → ℤ → ValueRef

  pub data ValueRefs : Type 0 where
    no_values : ValueRefs
    value_and : ValueRef → ValueRefs → ValueRefs

-- `VectorColumnData::at`: no `Value` is made of a `bool`.
unfoldable pub number_ref : (p : Primitive) → Carrier p → Outcome ValueRef
number_ref p_u8 x = ok (uint8 x)
number_ref p_u16 x = ok (uint16 x)
number_ref p_u32 x = ok (uint32 x)
number_ref p_u64 x = ok (uint64 x)
number_ref p_i8 x = ok (int8 x)
number_ref p_i16 x = ok (int16 x)
number_ref p_i32 x = ok (int32 x)
number_ref p_i64 x = ok (int64 x)
number_ref p_f32 x = ok (float32 x)
number_ref p_f64 x = ok (float64 x)
number_ref p_bool x = panicked

unfoldable pub ip_ref : IpVersion → List ℕ → ValueRef
ip_ref v_ipv4 v = ipv4 v
ip_ref v_ipv6 v = ipv6 v
ip_ref v_uuid v = uuid v

-- `IpVersion::get`
unfoldable pub ip_get : IpVersion → List ℕ → ℕ → Outcome ValueRef
unfolding ip_ref ip_size
ip_get v inner index = do
  bytes ← slice inner (index * ip_size v) ((index + 1) * ip_size v)
  ok (ip_ref v bytes)

-- `NullableColumnData::at`, with the type and the values of the inner column
unfoldable pub nullable_at :
    Outcome SqlType → (ℕ → Outcome ValueRef) → List ℕ → ℕ → Outcome ValueRef
nullable_at inner_type inner_at nulls index = do
  flag ← index_at nulls index
  if flag == 1
      then (do t ← inner_type; ok (null t))
      else (do inner_value ← inner_at index; ok (not_null inner_value))

-- `FixedStringColumnData::at`
unfoldable pub fixed_string_at : List ℕ → ℕ → ℕ → Outcome ValueRef
fixed_string_at buffer str_len index = do
  str_ref ← slice buffer (index * str_len) (index * str_len + str_len)
  ok (string str_ref)

-- The values at `more` places from `i` on.
unfoldable pub values_from : (ℕ → Outcome ValueRef) → ℕ → ℕ → Outcome ValueRefs
values_from inner_at zero i = ok no_values
values_from inner_at (suc more) i = do
  v ← inner_at i
  vs ← values_from inner_at more (i + 1)
  ok (value_and v vs)

-- `ArrayColumnData::at`: `Vec::with_capacity(end)` panics where `end` values, of a byte at least, are
-- more than an address space holds; how much of it one value takes, the compiler decides.
unfoldable pub array_at : Outcome SqlType → (ℕ → Outcome ValueRef) → List ℕ → ℕ → Outcome ValueRef
unfolding values_from range_len mem_at
array_at inner_type inner_at offsets index = do
  t ← inner_type
  start ← if ltb 0 index then mem_at p_u64 offsets (index - 1) else ok 0
  end ← mem_at p_u64 offsets index
  vs ← if ltb end (2 ^ 63) then values_from inner_at (range_len start end) start else panicked
  ok (array t vs)

-- `From<ValueRef>` for `i8`, `i16`, `i32` and `i64`: another value is a panic.
unfoldable pub int_from : Primitive → ValueRef → Outcome ℤ
int_from p_i8 (int8 v) = ok v
int_from p_i16 (int16 v) = ok v
int_from p_i32 (int32 v) = ok v
int_from p_i64 (int64 v) = ok v
int_from _ _ = panicked

-- `DecimalColumnData::at`
unfoldable pub decimal_at : (ℕ → Outcome ValueRef) → ℕ → ℕ → NoBits → ℕ → Outcome ValueRef
unfolding int_from
decimal_at inner_at precision scale nobits index = do
  v ← inner_at index
  underlying ← int_from (elim nobits [ n32 ↦ p_i32 | n64 ↦ p_i64 ]) v
  ok (
      decimal
        (record { underlying = underlying; precision = precision; scale = scale; nobits = nobits }))

-- `Enum8ColumnData::at` and `Enum16ColumnData::at`
unfoldable pub enum8_at : List (Text × ℤ) → (ℕ → Outcome ValueRef) → ℕ → Outcome ValueRef
unfolding int_from
enum8_at values inner_at index = do
  v ← inner_at index
  enum_value ← int_from p_i8 v
  ok (enum8 values enum_value)

unfoldable pub enum16_at : List (Text × ℤ) → (ℕ → Outcome ValueRef) → ℕ → Outcome ValueRef
unfolding int_from
enum16_at values inner_at index = do
  v ← inner_at index
  enum_value ← int_from p_i16 v
  ok (enum16 values enum_value)

-- `ChunkColumnData::at`
unfoldable pub chunk_at : (ℕ → Outcome ValueRef) → ℕ → ℕ → ℕ → Outcome ValueRef
unfolding range_len
chunk_at inner_at start end index =
    if leb (range_len start end) index then panicked else inner_at (index + start)

unfoldable pub value_at : ColumnData → ℕ → Outcome ValueRef
unfolding mem_at number_ref ip_get nullable_at fixed_string_at array_at decimal_at enum8_at
    enum16_at chunk_at
value_at (vector_column p memory) index = do x ← mem_at p memory index; number_ref p x
value_at (string_column pool) index = do s ← Pool.get pool index; ok (string s)
value_at (date_column memory tz) index = do days ← mem_at p_u16 memory index; ok (date days tz)
value_at (date_time_column memory tz) index = do
  seconds ← mem_at p_u32 memory index
  ok (date_time seconds tz)
value_at (date_time64_column memory precision tz) index = do
  value ← mem_at p_i64 memory index
  ok (date_time64 value precision tz)
value_at (ip_column v inner) index = ip_get v inner index
value_at (nullable_column inner nulls) index =
    nullable_at (sql_type inner) (value_at inner) nulls index
value_at (fixed_string_column buffer str_len) index = fixed_string_at buffer str_len index
value_at (array_column inner offsets) index =
    array_at (sql_type inner) (value_at inner) offsets index
value_at (decimal_column inner precision scale nobits) index =
    decimal_at (value_at inner) precision scale nobits index
value_at (enum8_column values inner) index = enum8_at values (value_at inner) index
value_at (enum16_column values inner) index = enum16_at values (value_at inner) index
value_at (chunk_column inner start end) index = chunk_at (value_at inner) start end index
