-- ===== src/Column/Load/Stored.antt =====
-- Columns that can be saved and loaded again, and what it means that a column was.
use clickhouse_srv.Common.{ℕ, ◌*◌, ◌<◌, ◌^◌, ◌≡◌, List, length, some, none}
use clickhouse_srv.Common.Text.{Text}
use clickhouse_srv.Errors.{ok}
use clickhouse_srv.Scalar.{p_u16, p_u32, p_i8, p_i16}
use clickhouse_srv.Types.SqlType.{SqlType, to_string}
use clickhouse_srv.Types.SqlType as Types
use clickhouse_srv.Binary.Cursor.{cursor}
use clickhouse_srv.Column.StringPool.{StringPool, len, get}
use clickhouse_srv.Column.StringPool.Contents.{Holds, Storable}
use clickhouse_srv.Column.Memory.{size_of}
use clickhouse_srv.Column.Branch.{TypeParsers}
use clickhouse_srv.Column.Data.{
  ip_size, ColumnData, vector_column, string_column, date_column, date_time_column,
  date_time64_column, ip_column, nullable_column, fixed_string_column, array_column, decimal_column,
  enum8_column, enum16_column, chunk_column,
}
use clickhouse_srv.Column.Load.Offsets.{words, Words, last_of}

-- Nullable columns of nullable columns have no name that is read.
abbrev pub Flat : ColumnData → Type 0
Flat (nullable_column inner nulls) = ⊥
Flat _ = Unit {0}

-- A column of `n` rows that fits in memory, whose type has a name that is read.
abbrev pub Stored : TypeParsers → ColumnData → ℕ → Type 0
Stored parsers (vector_column p memory) n =
    (t : SqlType) × (Types.sql_type p ≡ ok t)
    × (length memory ≡ n * size_of p)
    × (length memory < 2 ^ 63)
Stored parsers (string_column pool) n =
    (ss : List (List ℕ)) × Holds pool ss × (length ss ≡ n) × (n * 24 < 2 ^ 63) × Storable n ss
Stored parsers (date_column memory tz) n =
    (length memory ≡ n * size_of p_u16) × (length memory < 2 ^ 63)
Stored parsers (date_time_column memory tz) n =
    (length memory ≡ n * size_of p_u32) × (length memory < 2 ^ 63)
Stored parsers (date_time64_column memory precision tz) n = ⊥
Stored parsers (ip_column v inner) n = (length inner ≡ n * ip_size v) × (length inner < 2 ^ 63)
Stored parsers (nullable_column inner nulls) n =
    Flat inner × (length nulls ≡ n) × (n < 2 ^ 63) × Stored parsers inner n
Stored parsers (fixed_string_column buffer str_len) n =
    (length buffer ≡ n * str_len) × (length buffer < 2 ^ 63) × (str_len < 2 ^ 64) × (0 < str_len)
Stored parsers (array_column inner offsets) n =
    (os : List ℕ) × Words os
    × (offsets ≡ words os)
    × (length os ≡ n)
    × (length offsets < 2 ^ 63)
    × Stored parsers inner (last_of 0 os)
Stored parsers (decimal_column inner precision scale nobits) n = ⊥
Stored parsers (enum8_column values inner) n =
    (parsers.parse_enum8 (to_string (Types.enum8 values)) ≡ some values)
    × (memory : List ℕ) × (inner ≡ vector_column p_i8 memory)
    × (length memory ≡ n * size_of p_i8)
    × (length memory < 2 ^ 63)
Stored parsers (enum16_column values inner) n =
    (parsers.parse_enum8 (to_string (Types.enum16 values)) ≡ none)
    × (parsers.parse_enum16 (to_string (Types.enum16 values)) ≡ some values)
    × (memory : List ℕ) × (inner ≡ vector_column p_i16 memory)
    × (length memory ≡ n * size_of p_i16)
    × (length memory < 2 ^ 63)
Stored parsers (chunk_column inner start end) n = ⊥

-- The same values, with the time zone of the connection.
abbrev pub Same : Text → ColumnData → ColumnData → Type 0
Same tz (string_column pool) other =
    (pool' : StringPool) × (other ≡ string_column pool')
    × (len pool' ≡ len pool)
    × ((i : ℕ) → get pool' i ≡ get pool i)
Same tz (date_column memory zone) other = other ≡ date_column memory tz
Same tz (date_time_column memory zone) other = other ≡ date_time_column memory tz
Same tz (nullable_column inner nulls) other =
    (inner' : ColumnData) × (other ≡ nullable_column inner' nulls) × Same tz inner inner'
Same tz (array_column inner offsets) other =
    (inner' : ColumnData) × (other ≡ array_column inner' offsets) × Same tz inner inner'
Same tz column other = other ≡ column
