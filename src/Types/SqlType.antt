-- ===== src/Types/SqlType.antt =====
-- `SqlType` of src/types/mod.rs, and the types that src/types/mod.rs and src/types/stat_buffer.rs
-- give to the primitive types. A time zone of the `chrono_tz` crate is the name that it displays.
use clickhouse_srv.Common.{ℕ, ◌+◌, ◌%◌, ◌^◌, List, [], ◌∷◌, ◌++◌, Bool, true, false, ◌&&◌, ◌==◌}
use clickhouse_srv.Common.Text.{Text, text, decimal, text_eq}
use clickhouse_srv.Common.Int.{ℤ, pos, negsuc}
use clickhouse_srv.Errors.{Outcome, ok, panicked}
use clickhouse_srv.Scalar.{
  Primitive, p_u8, p_u16, p_u32, p_u64, p_i8, p_i16, p_i32, p_i64, p_f32, p_f64, p_bool,
}

pub data DateTimeType : Type 0 where
  date_time32 : DateTimeType
  date_time64 : ℕ → Text → DateTimeType
  chrono : DateTimeType

pub data SqlType : Type 0 where
  uint8 uint16 uint32 uint64 int8 int16 int32 int64 string : SqlType
  fixed_string : ℕ → SqlType
  float32 float64 date : SqlType
  date_time : DateTimeType → SqlType
  ipv4 ipv6 uuid : SqlType
  nullable : SqlType → SqlType
  array : SqlType → SqlType
  decimal_of : ℕ → ℕ → SqlType
  enum8 : List (Text × ℤ) → SqlType
  enum16 : List (Text × ℤ) → SqlType

-- The derived `PartialEq`.
int_eq : ℤ → ℤ → Bool
int_eq (pos m) (pos n) = m == n
int_eq (negsuc m) (negsuc n) = m == n
int_eq _ _ = false

items_eq : List (Text × ℤ) → List (Text × ℤ) → Bool
unfolding int_eq
items_eq [] [] = true
items_eq ((name, value) ∷ items) ((name', value') ∷ items') =
    text_eq name name' && int_eq value value' && items_eq items items'
items_eq _ _ = false

date_time_eq : DateTimeType → DateTimeType → Bool
date_time_eq date_time32 date_time32 = true
date_time_eq (date_time64 precision tz) (date_time64 precision' tz') =
    precision == precision' && text_eq tz tz'
date_time_eq chrono chrono = true
date_time_eq _ _ = false

unfoldable pub type_eq : SqlType → SqlType → Bool
unfolding items_eq date_time_eq
type_eq uint8 uint8 = true
type_eq uint16 uint16 = true
type_eq uint32 uint32 = true
type_eq uint64 uint64 = true
type_eq int8 int8 = true
type_eq int16 int16 = true
type_eq int32 int32 = true
type_eq int64 int64 = true
type_eq string string = true
type_eq float32 float32 = true
type_eq float64 float64 = true
type_eq date date = true
type_eq ipv4 ipv4 = true
type_eq ipv6 ipv6 = true
type_eq uuid uuid = true
type_eq (fixed_string m) (fixed_string n) = m == n
type_eq (date_time t) (date_time u) = date_time_eq t u
type_eq (nullable t) (nullable u) = type_eq t u
type_eq (array t) (array u) = type_eq t u
type_eq (decimal_of p s) (decimal_of p' s') = p == p' && s == s'
type_eq (enum8 items) (enum8 items') = items_eq items items'
type_eq (enum16 items) (enum16 items') = items_eq items items'
type_eq _ _ = false

pub is_datetime : SqlType → Bool
is_datetime (date_time t) = true
is_datetime _ = false

-- `{}` of a signed integer.
unfoldable pub int_text : ℤ → Text
int_text (pos n) = decimal n
int_text (negsuc n) = text "-" ++ decimal (n + 1)

-- `'name' = value`, with commas between.
enum_item : Text × ℤ → Text
unfolding int_text
enum_item (name, value) = text "'" ++ (name ++ (text "' = " ++ int_text value))

enum_items : List (Text × ℤ) → Text
enum_items [] = []
enum_items (item ∷ []) = enum_item item
enum_items (item ∷ next ∷ items) = enum_item item ++ (text "," ++ enum_items (next ∷ items))

unfoldable pub to_string : SqlType → Text
unfolding enum_items enum_item
to_string uint8 = text "UInt8"
to_string uint16 = text "UInt16"
to_string uint32 = text "UInt32"
to_string uint64 = text "UInt64"
to_string int8 = text "Int8"
to_string int16 = text "Int16"
to_string int32 = text "Int32"
to_string int64 = text "Int64"
to_string string = text "String"
to_string (fixed_string str_len) = text "FixedString(" ++ (decimal str_len ++ text ")")
to_string float32 = text "Float32"
to_string float64 = text "Float64"
to_string date = text "Date"
to_string (date_time (date_time64 precision tz)) =
    text "DateTime64(" ++ (decimal precision ++ (text ", '" ++ (tz ++ text "')")))
to_string (date_time _) = text "DateTime"
to_string ipv4 = text "IPv4"
to_string ipv6 = text "IPv6"
to_string uuid = text "UUID"
to_string (nullable nested) = text "Nullable(" ++ (to_string nested ++ text ")")
to_string (array nested) = text "Array(" ++ (to_string nested ++ text ")")
to_string (decimal_of precision scale) =
    text "Decimal(" ++ (decimal precision ++ (text ", " ++ (decimal scale ++ text ")")))
to_string (enum8 values) = text "Enum8(" ++ (enum_items values ++ text ")")
to_string (enum16 values) = text "Enum16(" ++ (enum_items values ++ text ")")

-- A u8: it wraps.
pub level : SqlType → ℕ
level (nullable inner) = (1 + level inner) % 2 ^ 8
level (array inner) = (1 + level inner) % 2 ^ 8
level _ = 0

-- `StatBuffer::sql_type`: `bool` has none.
unfoldable pub sql_type : Primitive → Outcome SqlType
sql_type p_u8 = ok uint8
sql_type p_u16 = ok uint16
sql_type p_u32 = ok uint32
sql_type p_u64 = ok uint64
sql_type p_i8 = ok int8
sql_type p_i16 = ok int16
sql_type p_i32 = ok int32
sql_type p_i64 = ok int64
sql_type p_f32 = ok float32
sql_type p_f64 = ok float64
sql_type p_bool = panicked
