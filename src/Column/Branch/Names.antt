-- ===== src/Column/Branch/Names.antt =====
-- The branch of src/types/column/factory.rs that the name of each type takes.
use clickhouse_srv.Common.{
  ℕ, ◌<◌, ◌^◌, ◌≡◌, refl, ap, List, ◌++◌, length, Bool-cases, inl, inr, ltb, false, some, none,
  arith,
}
use clickhouse_srv.Common.Text.{Text, text, decimal}
use clickhouse_srv.Common.Int.{ℤ}
use clickhouse_srv.Errors.{Outcome, ok}
use clickhouse_srv.Scalar.{
  Primitive, p_u8, p_u16, p_u32, p_u64, p_i8, p_i16, p_i32, p_i64, p_f32, p_f64, p_bool,
}
use clickhouse_srv.Types.SqlType.{SqlType, to_string, sql_type}
use clickhouse_srv.Types.SqlType as Types
use clickhouse_srv.Column.TypeName.{
  starts_with, eq_ignore_ascii_case, parse_nullable_type, parse_fixed_string, parse_array_type,
}
use clickhouse_srv.Column.TypeName.Parses.{
  Ascii, Ascii-decimal, parse_unsigned-decimal, str_slice-inner,
}
use clickhouse_srv.Column.DecimalName.{parse_decimal}
use clickhouse_srv.Column.Branch.{
  TypeParsers, numbers, nullable_of, fixed_strings, array_of, enums8, enums16, match_str,
  named_arms, later_parsers, branch,
}

value_of : SqlType → Outcome SqlType → SqlType
value_of t (ok u) = u
value_of t _ = t

pub ok-injective : (t u : SqlType) → ok t ≡ ok u → t ≡ u
unfolding value_of
ok-injective t u e = ap (value_of t) e

-- Every name begins with a letter.
pub Ascii-name : (t : SqlType) → Ascii (to_string t)
unfolding to_string
Ascii-name Types.uint8 = (_, _, refl, omega arith)
Ascii-name Types.uint16 = (_, _, refl, omega arith)
Ascii-name Types.uint32 = (_, _, refl, omega arith)
Ascii-name Types.uint64 = (_, _, refl, omega arith)
Ascii-name Types.int8 = (_, _, refl, omega arith)
Ascii-name Types.int16 = (_, _, refl, omega arith)
Ascii-name Types.int32 = (_, _, refl, omega arith)
Ascii-name Types.int64 = (_, _, refl, omega arith)
Ascii-name Types.string = (_, _, refl, omega arith)
Ascii-name Types.float32 = (_, _, refl, omega arith)
Ascii-name Types.float64 = (_, _, refl, omega arith)
Ascii-name Types.date = (_, _, refl, omega arith)
Ascii-name Types.ipv4 = (_, _, refl, omega arith)
Ascii-name Types.ipv6 = (_, _, refl, omega arith)
Ascii-name Types.uuid = (_, _, refl, omega arith)
Ascii-name (Types.fixed_string n) = (_, _, refl, omega arith)
Ascii-name (Types.date_time Types.date_time32) = (_, _, refl, omega arith)
Ascii-name (Types.date_time (Types.date_time64 precision tz)) = (_, _, refl, omega arith)
Ascii-name (Types.date_time Types.chrono) = (_, _, refl, omega arith)
Ascii-name (Types.nullable nested) = (_, _, refl, omega arith)
Ascii-name (Types.array nested) = (_, _, refl, omega arith)
Ascii-name (Types.decimal_of precision scale) = (_, _, refl, omega arith)
Ascii-name (Types.enum8 values) = (_, _, refl, omega arith)
Ascii-name (Types.enum16 values) = (_, _, refl, omega arith)

-- No number has a name that begins so.
pub number_type :
    (p : Primitive) (t : SqlType)
    → sql_type p ≡ ok t
    → starts_with (to_string t) (text "Nullable") ≡ false
unfolding sql_type to_string starts_with
number_type p_u8 t e = rw (← ok-injective Types.uint8 t e)
number_type p_u16 t e = rw (← ok-injective Types.uint16 t e)
number_type p_u32 t e = rw (← ok-injective Types.uint32 t e)
number_type p_u64 t e = rw (← ok-injective Types.uint64 t e)
number_type p_i8 t e = rw (← ok-injective Types.int8 t e)
number_type p_i16 t e = rw (← ok-injective Types.int16 t e)
number_type p_i32 t e = rw (← ok-injective Types.int32 t e)
number_type p_i64 t e = rw (← ok-injective Types.int64 t e)
number_type p_f32 t e = rw (← ok-injective Types.float32 t e)
number_type p_f64 t e = rw (← ok-injective Types.float64 t e)
number_type p_bool t e = cc e

-- A name that does not begin so is no decimal.
parse_decimal-other :
    (name : Text) → starts_with name (text "Decimal") ≡ false → parse_decimal name ≡ ok none
unfolding parse_decimal
parse_decimal-other name e = elim (Bool-cases (ltb (length name) 12)) [
  | inl b ↦ rw b
  | inr b ↦ rw (b, e)
]

module _ (parsers : TypeParsers) where
  pub branch-numbers :
      (p : Primitive) (t : SqlType)
      → sql_type p ≡ ok t
      → branch parsers (to_string t) ≡ ok (numbers p)
  unfolding branch match_str named_arms eq_ignore_ascii_case to_string sql_type
  branch-numbers p_u8 t e = rw (← ok-injective Types.uint8 t e)
  branch-numbers p_u16 t e = rw (← ok-injective Types.uint16 t e)
  branch-numbers p_u32 t e = rw (← ok-injective Types.uint32 t e)
  branch-numbers p_u64 t e = rw (← ok-injective Types.uint64 t e)
  branch-numbers p_i8 t e = rw (← ok-injective Types.int8 t e)
  branch-numbers p_i16 t e = rw (← ok-injective Types.int16 t e)
  branch-numbers p_i32 t e = rw (← ok-injective Types.int32 t e)
  branch-numbers p_i64 t e = rw (← ok-injective Types.int64 t e)
  branch-numbers p_f32 t e = rw (← ok-injective Types.float32 t e)
  branch-numbers p_f64 t e = rw (← ok-injective Types.float64 t e)
  branch-numbers p_bool t e = cc e

  pub branch-nullable :
      (name : Text)
      → Ascii name
      → starts_with name (text "Nullable") ≡ false
      → branch parsers (text "Nullable(" ++ (name ++ text ")")) ≡ ok (nullable_of name)
  unfolding branch match_str named_arms eq_ignore_ascii_case parse_nullable_type starts_with
  branch-nullable name ascii plain =
      rw (str_slice-inner 9 (text "Nullable(") name refl ascii) (rw plain)

  pub branch-array :
      (name : Text)
      → Ascii name
      → branch parsers (text "Array(" ++ (name ++ text ")")) ≡ ok (array_of name)
  unfolding branch match_str named_arms eq_ignore_ascii_case parse_nullable_type parse_fixed_string
      parse_array_type starts_with
  branch-array name ascii = rw (str_slice-inner 6 (text "Array(") name refl ascii)

  pub branch-fixed :
      (n : ℕ)
      → n < 2 ^ 64
      → branch parsers (to_string (Types.fixed_string n)) ≡ ok (fixed_strings n)
  unfolding branch match_str named_arms eq_ignore_ascii_case parse_nullable_type parse_fixed_string
      starts_with to_string
  branch-fixed n small =
      rw (str_slice-inner 12 (text "FixedString(") (decimal n) refl (Ascii-decimal n))
        (rw (parse_unsigned-decimal (2 ^ 64) n small))

  later_parsers-enum8 :
      (values : List (Text × ℤ)) (name : Text)
      → parsers.parse_enum8 name ≡ some values
      → later_parsers parsers name ≡ enums8 values
  unfolding later_parsers
  later_parsers-enum8 values name e = rw (e, later_parsers)

  later_parsers-enum16 :
      (values : List (Text × ℤ)) (name : Text)
      → parsers.parse_enum8 name ≡ none
      → parsers.parse_enum16 name ≡ some values
      → later_parsers parsers name ≡ enums16 values
  unfolding later_parsers
  later_parsers-enum16 values name other e = rw (other, e, later_parsers)

  pub branch-enum8 :
      (values : List (Text × ℤ)) (rest : Text)
      → parsers.parse_enum8 (text "Enum8(" ++ rest) ≡ some values
      → branch parsers (text "Enum8(" ++ rest) ≡ ok (enums8 values)
  unfolding branch match_str named_arms eq_ignore_ascii_case parse_nullable_type parse_fixed_string
      parse_array_type starts_with
  branch-enum8 values rest e = rw (
    parse_decimal-other (text "Enum8(" ++ rest) refl,
    later_parsers-enum8 values (text "Enum8(" ++ rest) e,
  )

  pub branch-enum16 :
      (values : List (Text × ℤ)) (rest : Text)
      → parsers.parse_enum8 (text "Enum16(" ++ rest) ≡ none
      → parsers.parse_enum16 (text "Enum16(" ++ rest) ≡ some values
      → branch parsers (text "Enum16(" ++ rest) ≡ ok (enums16 values)
  unfolding branch match_str named_arms eq_ignore_ascii_case parse_nullable_type parse_fixed_string
      parse_array_type starts_with
  branch-enum16 values rest other e = rw (
    parse_decimal-other (text "Enum16(" ++ rest) refl,
    later_parsers-enum16 values (text "Enum16(" ++ rest) other e,
  )
