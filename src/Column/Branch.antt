-- ===== src/Column/Branch.antt =====
-- The `match_str!` of `load_data` in src/types/column/factory.rs: which column a name stands for.
pub mod Names
pub mod Shorter
use clickhouse_srv.Common.{ℕ, List, [], ◌∷◌, Bool, false, ◌||◌, Option, none, some, if◌then◌else◌}
use clickhouse_srv.Common.Text.{Text, text}
use clickhouse_srv.Common.Int.{ℤ}
use clickhouse_srv.Errors.{Outcome, ok, ◌>>=◌}
use clickhouse_srv.Scalar.{
  Primitive, p_u8, p_u16, p_u32, p_u64, p_i8, p_i16, p_i32, p_i64, p_f32, p_f64,
}
use clickhouse_srv.Types.Decimal.{NoBits}
use clickhouse_srv.Column.Data.{IpVersion, v_ipv4, v_ipv6, v_uuid}
use clickhouse_srv.Column.TypeName.{
  eq_ignore_ascii_case, parse_fixed_string, parse_nullable_type, parse_array_type,
}
use clickhouse_srv.Column.DecimalName.{parse_decimal}

-- The parsers that `combine` runs, and the time zones of `chrono_tz`.
pub record TypeParsers : Type 0 where
  pub parse_enum8 : Text → Option (List (Text × ℤ))
  pub parse_enum16 : Text → Option (List (Text × ℤ))
  pub parse_date_time64 : Text → Option (ℕ × Option Text)
  pub parse_tz : Text → Outcome Text

pub data Branch : Type 0 where
  numbers : Primitive → Branch
  strings_of dates date_times : Branch
  addresses : IpVersion → Branch
  nullable_of : Text → Branch
  fixed_strings : ℕ → Branch
  array_of : Text → Branch
  decimals : ℕ → ℕ → NoBits → Branch
  enums8 enums16 : List (Text × ℤ) → Branch
  date_times64 : ℕ → Option Text → Branch
  unsupported : Branch

-- The arms of the match, in their order.
unfoldable pub named_arms : List (List Text × Branch)
named_arms =
    (text "UInt8" ∷ [], numbers p_u8)
    ∷ (text "UInt16" ∷ [], numbers p_u16)
    ∷ (text "UInt32" ∷ [], numbers p_u32)
    ∷ (text "UInt64" ∷ [], numbers p_u64)
    ∷ (text "Int8" ∷ text "TinyInt" ∷ [], numbers p_i8)
    ∷ (text "Int16" ∷ text "SmallInt" ∷ [], numbers p_i16)
    ∷ (text "Int32" ∷ text "Int" ∷ text "Integer" ∷ [], numbers p_i32)
    ∷ (text "Int64" ∷ text "BigInt" ∷ [], numbers p_i64)
    ∷ (text "Float32" ∷ text "Float" ∷ [], numbers p_f32)
    ∷ (text "Float64" ∷ text "Double" ∷ [], numbers p_f64)
    ∷ (
      text "String"
          ∷ text "Char"
          ∷ text "Varchar"
          ∷ text "Text"
          ∷ text "TinyText"
          ∷ text "MediumText"
          ∷ text "LongText"
          ∷ text "Blob"
          ∷ text "TinyBlob"
          ∷ text "MediumBlob"
          ∷ text "LongBlob"
          ∷ [],
      strings_of,
    )
    ∷ (text "Date" ∷ [], dates)
    ∷ (text "DateTime" ∷ text "Timestamp" ∷ [], date_times)
    ∷ (text "IPv4" ∷ [], addresses v_ipv4)
    ∷ (text "IPv6" ∷ [], addresses v_ipv6)
    ∷ (text "UUID" ∷ [], addresses v_uuid)
    ∷ []

any_eq : Text → List Text → Bool
unfolding eq_ignore_ascii_case
any_eq name [] = false
any_eq name (x ∷ xs) = eq_ignore_ascii_case name x || any_eq name xs

unfoldable pub match_str : List (List Text × Branch) → Text → Option Branch
unfolding any_eq
match_str [] name = none
match_str ((names, branch) ∷ arms) name =
    if any_eq name names then some branch else match_str arms name

-- The parsers after the match: the first that takes the name decides.
module _ (parsers : TypeParsers) where
  later_parsers : Text → Branch
  later_parsers name = elim (parsers.parse_enum8 name) [
    | some items ↦ enums8 items
    | none ↦ elim (parsers.parse_enum16 name) [
      | some items ↦ enums16 items
      | none ↦ elim (parsers.parse_date_time64 name) [
        | some (precision, timezone) ↦ date_times64 precision timezone
        | none ↦ unsupported
      ]
    ]
  ]

  after_array : Text → Option (ℕ × (ℕ × NoBits)) → Branch
  unfolding later_parsers
  after_array name (some (precision, (scale, nobits))) = decimals precision scale nobits
  after_array name none = later_parsers name

  after_fixed : Text → Option Text → Outcome Branch
  unfolding after_array
  after_fixed name (some inner_type) = ok (array_of inner_type)
  after_fixed name none = do found ← parse_decimal name; ok (after_array name found)

  after_nullable : Text → Option ℕ → Outcome Branch
  unfolding after_fixed
  after_nullable name (some str_len) = ok (fixed_strings str_len)
  after_nullable name none = do found ← parse_array_type name; after_fixed name found

  unnamed : Text → Option Text → Outcome Branch
  unfolding after_nullable
  unnamed name (some inner_type) = ok (nullable_of inner_type)
  unnamed name none = do found ← parse_fixed_string name; after_nullable name found

  unfoldable pub branch : Text → Outcome Branch
  unfolding match_str named_arms unnamed
  branch name = elim (match_str named_arms name) [
    | some found ↦ ok found
    | none ↦ do found ← parse_nullable_type name; unnamed name found
  ]
