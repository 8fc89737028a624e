-- ===== src/Column/StoredTests.antt =====
-- Pools of strings and columns on concrete values.
use clickhouse_srv.Common.{ℕ, map, ◌≡◌, refl, List, [], ◌∷◌, none, some, inr, arith}
use clickhouse_srv.Common.Text.{text, text_eq}
use clickhouse_srv.Errors.{ok, panicked, ◌>>=◌}
use clickhouse_srv.Errors.Index.{index_at, slice}
use clickhouse_srv.Scalar.{p_u16, u16}
use clickhouse_srv.Types.SqlType.{to_string}
use clickhouse_srv.Types.SqlType as Types
use clickhouse_srv.Types.Decimal.{n32, n64, from_precision}
use clickhouse_srv.Column.StringPool.{StringPool, push_bytes, get, strings, from_vec}
use clickhouse_srv.Column.StringPool.Contents.{Holds, push-Holds, get-Holds, strings-from_vec}
use clickhouse_srv.Column.Data.{
  ColumnData, sql_type, save, array_column, vector_column, nullable_column,
}
use clickhouse_srv.Column.Branch.{TypeParsers}
use clickhouse_srv.Column.TypeName.{parse_nullable_type, starts_with, str_slice, parse_unsigned}
use clickhouse_srv.Column.DecimalName.{parse_decimal}
use clickhouse_srv.Column.Load.Stored.{Stored, Same}
use clickhouse_srv.Column.Load.{load_data}
use clickhouse_srv.Binary.Cursor.{cursor, Cursor}
use clickhouse_srv.Binary.Gives.{Gives}
use clickhouse_srv.Binary.Encoder.Writes.{Writes}
use clickhouse_srv.Column.Values.{value_at, number_ref, array, uint16}
use clickhouse_srv.Column.Values.Rows.{laid, mark, ends, shown_all, value_at-row}
use clickhouse_srv.Column.Memory.{mem_at, mem_len}
use clickhouse_srv.Column.Load.Offsets.{words}
use clickhouse_srv.Column.FixedPush.{fixed_string_push, fixed_string_push-full}
use clickhouse_srv.Column.Load.Saved.{load_data-save}

abbrev pub texts : List (List ℕ)
texts = text "ab" ∷ [] ∷ text "c" ∷ []

strings-from_vec_example : (from_vec texts >>= strings) ≡ ok texts
strings-from_vec_example = strings-from_vec texts (omega arith, (omega arith, (omega arith, tt)))

-- Two strings in the used part of the only chunk.
abbrev pool : StringPool
pool = record {
  chunks = (97 ∷ 98 ∷ 99 ∷ 0 ∷ []) ∷ [];
  pointers =
      record { chunk = 0; shift = 0; len = 2 } ∷ record { chunk = 0; shift = 2; len = 1 } ∷ [];
  position = 3;
  capacity = 0;
}

pool-Holds : Holds pool (text "ab" ∷ text "c" ∷ [])
pool-Holds = inr (
  [],
  97 ∷ 98 ∷ 99 ∷ [],
  0 ∷ [],
  refl,
  omega arith,
  (
    inr (refl, ([], 99 ∷ [], refl, refl, refl)),
    (inr (refl, (97 ∷ 98 ∷ [], [], refl, refl, refl)), tt),
  ),
)

-- The third string does not fit: a chunk is added for it.
push-Holds_example :
    (pool' : StringPool) × (push_bytes (text "de") pool ≡ ok pool')
    × Holds pool' (text "ab" ∷ text "c" ∷ text "de" ∷ [])
    × (pool'.capacity ≡ 0)
push-Holds_example =
    push-Holds pool (text "ab" ∷ text "c" ∷ []) (text "de") (omega arith) pool-Holds

get-Holds_example : get pool 1 ≡ index_at (text "ab" ∷ text "c" ∷ []) 1
get-Holds_example = get-Holds pool (text "ab" ∷ text "c" ∷ []) 1 pool-Holds

-- No enumeration is parsed, and each name is that of a time zone.
abbrev pub parsers : TypeParsers
parsers = record {
  parse_enum8 = λ name. none;
  parse_enum16 = λ name. none;
  parse_date_time64 = λ name. none;
  parse_tz = λ name. ok name;
}

-- The tests of src/types/column/factory.rs.
parse_decimal_test : parse_decimal (text "Decimal(9, 4)") ≡ ok (some (9, (4, n32)))
unfolding parse_decimal starts_with text_eq slice parse_unsigned from_precision
parse_decimal_test = refl

parse_decimal_long_test : parse_decimal (text "Decimal(10, 4)") ≡ ok (some (10, (4, n64)))
unfolding parse_decimal starts_with text_eq slice parse_unsigned from_precision
parse_decimal_long_test = refl

parse_decimal_scale_test : parse_decimal (text "Decimal(3, 4)") ≡ ok none
unfolding parse_decimal starts_with text_eq slice parse_unsigned from_precision
parse_decimal_scale_test = refl

parse_decimal_sized_test : parse_decimal (text "Decimal64(9)") ≡ ok (some (18, (9, n64)))
unfolding parse_decimal starts_with text_eq slice parse_unsigned from_precision
parse_decimal_sized_test = refl

parse_nullable_type_test : parse_nullable_type (text "Nullable(Int8)") ≡ ok (some (text "Int8"))
unfolding parse_nullable_type starts_with str_slice
parse_nullable_type_test = refl

-- A name that ends too early is a panic.
parse_nullable_type_short_test : parse_nullable_type (text "Nullable") ≡ panicked
unfolding parse_nullable_type starts_with str_slice
parse_nullable_type_short_test = refl

-- Two rows of numbers, the second of them null.
stored : Stored parsers (nullable_column (vector_column p_u16 (1 ∷ 0 ∷ 2 ∷ 0 ∷ [])) (0 ∷ 1 ∷ [])) 2
unfolding Types.sql_type u16
stored = (tt, refl, omega arith, (Types.uint16, refl, refl, omega arith))

typed :
    sql_type (nullable_column (vector_column p_u16 (1 ∷ 0 ∷ 2 ∷ 0 ∷ [])) (0 ∷ 1 ∷ []))
    ≡ ok (Types.nullable Types.uint16)
unfolding sql_type Types.sql_type u16
typed = refl

load_data-save_example :
    (bs : List ℕ) × Writes
      (save (nullable_column (vector_column p_u16 (1 ∷ 0 ∷ 2 ∷ 0 ∷ [])) (0 ∷ 1 ∷ [])) 0 2)
      bs
    × (column' : ColumnData) × Gives
        (load_data parsers (text "UTC") (to_string (Types.nullable Types.uint16)) 2)
        bs
        (ok column')
    × Same
        (text "UTC")
        (nullable_column (vector_column p_u16 (1 ∷ 0 ∷ 2 ∷ 0 ∷ [])) (0 ∷ 1 ∷ []))
        column'
load_data-save_example =
    load_data-save parsers (text "UTC")
      (nullable_column (vector_column p_u16 (1 ∷ 0 ∷ 2 ∷ 0 ∷ [])) (0 ∷ 1 ∷ [])) 2
      (Types.nullable Types.uint16) stored typed

-- The rows [], [1, null] and [3] over numbers, with a 7 under the null: the second.
value_at-row_example :
    value_at
      (array_column
        (nullable_column
          (vector_column p_u16 (1 ∷ 0 ∷ 7 ∷ 0 ∷ 3 ∷ 0 ∷ []))
          (map mark (laid ([] ∷ (some (uint16 1) ∷ none ∷ []) ∷ (some (uint16 3) ∷ []) ∷ []))))
        (words (ends 0 ([] ∷ (some (uint16 1) ∷ none ∷ []) ∷ (some (uint16 3) ∷ []) ∷ []))))
      1
    ≡ ok
        (array (Types.nullable Types.uint16) (shown_all Types.uint16 (some (uint16 1) ∷ none ∷ [])))
unfolding value_at number_ref mem_at mem_len sql_type Types.sql_type u16
value_at-row_example =
    value_at-row (vector_column p_u16 (1 ∷ 0 ∷ 7 ∷ 0 ∷ 3 ∷ 0 ∷ [])) Types.uint16 ([] ∷ [])
      (some (uint16 1) ∷ none ∷ []) ((some (uint16 3) ∷ []) ∷ []) refl (omega arith) (refl, tt)

fixed_string_push-full_example : fixed_string_push (text "xy") 2 (text "ab") ≡ text "xy"
fixed_string_push-full_example = fixed_string_push-full (text "xy") 2 (text "ab") (omega arith)
