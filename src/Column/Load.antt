-- ===== src/Column/Load.antt =====
-- `load_data` of src/types/column/factory.rs, and the `load` of each column.
pub mod Framing
pub mod Fuel
pub mod Memory
pub mod Stored
pub mod Sizes
pub mod RoundTrip
pub mod Nested
pub mod Saved
pub mod Offsets
pub mod Strings
use clickhouse_srv.Common.{
  ℕ, zero, suc, ◌+◌, ◌*◌, ◌%◌, ◌^◌, List, [], ◌++◌, length, Option, none, some,
}
use clickhouse_srv.Common.Text.{Text, text}
use clickhouse_srv.Common.Int.{ℤ}
use clickhouse_srv.Errors.{Outcome, Error, other_error, ok}
use clickhouse_srv.Scalar.{Primitive, p_u16, p_u32, p_u64, p_i64}
use clickhouse_srv.Types.Decimal.{NoBits, n32, n64}
use clickhouse_srv.Binary.Reader.{Reader, Read, pure, raise, diverge, lift, ◌>>=◌, ◌>>◌}
use clickhouse_srv.Binary.ReadEx.{read_bytes, allocate}
use clickhouse_srv.Column.StringPool.{StringPool, with_capacity, read_str_into_buffer}
use clickhouse_srv.Column.Memory.{mem_at, read_memory}
use clickhouse_srv.Column.Data.{
  IpVersion, ip_size, ColumnData, vector_column, string_column, date_column, date_time_column,
  date_time64_column, ip_column, nullable_column, fixed_string_column, array_column, decimal_column,
  enum8_column, enum16_column,
}
use clickhouse_srv.Column.Branch.{
  TypeParsers, Branch, numbers, strings_of, dates, date_times, addresses, nullable_of,
  fixed_strings, array_of, decimals, enums8, enums16, date_times64, unsupported, branch,
}

unfoldable pub unsupported_type : Text → Error
unsupported_type type_name =
    other_error (text "Unsupported column type \"" ++ (type_name ++ text "\"."))

-- `get_timezone`
unfoldable pub get_timezone : TypeParsers → Option Text → Text → Outcome Text
get_timezone parsers none tz = ok tz
get_timezone parsers (some t) tz = parsers.parse_tz t

module _ {S : Type 0} ⦃r : Read S⦄ where
  -- `size` strings are still to be read.
  unfoldable pub load_strings : ℕ → StringPool → Reader S StringPool
  load_strings zero pool = pure pool
  load_strings (suc size) pool = do more ← read_str_into_buffer pool; load_strings size more

  -- The pointers of a pool have three words each.
  unfoldable pub load_string_column : ℕ → Reader S ColumnData
  unfolding load_strings
  load_string_column size = do
    allocate (size * 24)
    pool ← load_strings size (with_capacity size)
    pure (string_column pool)

  -- `vec![0; size * V::size()]`: the product wraps.
  unfoldable pub load_ip : IpVersion → ℕ → Reader S ColumnData
  load_ip v size = do
    allocate (size * ip_size v % 2 ^ 64)
    inner ← read_bytes (size * ip_size v % 2 ^ 64)
    pure (ip_column v inner)

  -- `size` strings of `str_len` bytes are still to be read behind `buffer`.
  unfoldable pub load_fixed : ℕ → ℕ → List ℕ → Reader S (List ℕ)
  load_fixed zero str_len buffer = pure buffer
  load_fixed (suc size) str_len buffer = do
    allocate (length buffer + str_len)
    bytes ← read_bytes str_len
    load_fixed size str_len (buffer ++ bytes)

  unfoldable pub load_fixed_string : ℕ → ℕ → Reader S ColumnData
  unfolding load_fixed
  load_fixed_string size str_len = do
    allocate (size * str_len % 2 ^ 64)
    buffer ← load_fixed size str_len []
    pure (fixed_string_column buffer str_len)

  -- The end of the last array, if there is one.
  unfoldable pub last_offset : List ℕ → ℕ → Reader S ℕ
  last_offset offsets zero = pure 0
  last_offset offsets (suc rows) = lift (mem_at p_u64 offsets rows)

  module _ (parsers : TypeParsers) (tz : Text) where
    -- `VectorColumnData::load`
    unfoldable pub load_vector : Primitive → ℕ → Reader S ColumnData
    unfolding read_memory
    load_vector p size = do memory ← read_memory p size; pure (vector_column p memory)

    -- `DateColumnData::load`, for days and for seconds
    unfoldable pub load_date : ℕ → Reader S ColumnData
    unfolding read_memory
    load_date size = do memory ← read_memory p_u16 size; pure (date_column memory tz)

    unfoldable pub load_date_time : ℕ → Reader S ColumnData
    unfolding read_memory
    load_date_time size = do memory ← read_memory p_u32 size; pure (date_time_column memory tz)

    -- `DateTime64ColumnData::load`
    unfoldable pub load_date_time64 : ℕ → ℕ → Text → Reader S ColumnData
    unfolding read_memory
    load_date_time64 size precision zone = do
      memory ← read_memory p_i64 size
      pure (date_time64_column memory precision zone)

    -- The columns that hold another are loaded by `load_inner`.
    module _ (load_inner : Text → ℕ → Reader S ColumnData) where
      -- `NullableColumnData::load`
      unfoldable pub load_nullable : Text → ℕ → Reader S ColumnData
      load_nullable inner_type size = do
        allocate size
        nulls ← read_bytes size
        inner ← load_inner inner_type size
        pure (nullable_column inner nulls)

      -- `ArrayColumnData::load`
      unfoldable pub load_array : Text → ℕ → Reader S ColumnData
      unfolding read_memory
      load_array inner_type rows = do
        offsets ← read_memory p_u64 rows
        size ← last_offset offsets rows
        inner ← load_inner inner_type size
        pure (array_column inner offsets)

      -- `DecimalColumnData::load`
      unfoldable pub load_decimal : ℕ → ℕ → NoBits → ℕ → Reader S ColumnData
      load_decimal precision scale nobits size = do
        inner ← load_inner (elim nobits [ n32 ↦ text "Int32" | n64 ↦ text "Int64" ]) size
        pure (decimal_column inner precision scale nobits)

      -- `Enum8ColumnData::load` and `Enum16ColumnData::load`
      unfoldable pub load_enum8 : List (Text × ℤ) → ℕ → Reader S ColumnData
      load_enum8 items size = do
        inner ← load_inner (text "Int8") size
        pure (enum8_column items inner)

      unfoldable pub load_enum16 : List (Text × ℤ) → ℕ → Reader S ColumnData
      load_enum16 items size = do
        inner ← load_inner (text "Int16") size
        pure (enum16_column items inner)

      unfoldable pub load_branch : Text → ℕ → Branch → Reader S ColumnData
      unfolding get_timezone load_vector load_date load_date_time load_date_time64 load_nullable
          load_array load_decimal load_enum8 load_enum16
      load_branch name size (numbers p) = load_vector p size
      load_branch name size strings_of = load_string_column size
      load_branch name size dates = load_date size
      load_branch name size date_times = load_date_time size
      load_branch name size (addresses v) = load_ip v size
      load_branch name size (nullable_of inner_type) = load_nullable inner_type size
      load_branch name size (fixed_strings str_len) = load_fixed_string size str_len
      load_branch name size (array_of inner_type) = load_array inner_type size
      load_branch name size (decimals precision scale nobits) =
          load_decimal precision scale nobits size
      load_branch name size (enums8 items) = load_enum8 items size
      load_branch name size (enums16 items) = load_enum16 items size
      load_branch name size (date_times64 precision timezone) = do
        column_timezone ← lift (get_timezone parsers timezone tz)
        load_date_time64 size precision column_timezone
      load_branch name size unsupported = raise (unsupported_type name)

    -- The name of an inner type is shorter, or the name of a number.
    unfoldable pub load_named : ℕ → Text → ℕ → Reader S ColumnData
    unfolding load_branch
    load_named zero name size = diverge
    load_named (suc fuel) name size = do
      found ← lift (branch parsers name)
      load_branch (load_named fuel) name size found

    unfoldable pub load_data : Text → ℕ → Reader S ColumnData
    unfolding load_named
    load_data name size = load_named (2 + length name) name size
