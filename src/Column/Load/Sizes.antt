-- ===== src/Column/Load/Sizes.antt =====
-- The number of rows of a column that is stored, and of the one that is loaded for it.
use clickhouse_srv.Common.{ℕ, ◌*◌, ◌/◌, ◌<◌, ◌≡◌, ap, ◌∙◌, List, length, arith, eq→==, ne→==}
use clickhouse_srv.Common.Text.{Text}
use clickhouse_srv.Errors.{ok}
use clickhouse_srv.Scalar.{
  Primitive, p_u8, p_u16, p_u32, p_u64, p_i8, p_i16, p_i32, p_i64, p_f32, p_f64, p_bool, u8, u16,
  u32, u64, i8, i16, i32, i64, f32, f64, bool,
}
use clickhouse_srv.Column.StringPool.Contents.{len-Holds}
use clickhouse_srv.Column.Memory.{size_of, mem_len}
use clickhouse_srv.Column.Branch.{TypeParsers}
use clickhouse_srv.Column.Data.{
  nullable_len, fixed_string_len, IpVersion, v_ipv4, v_ipv6, v_uuid, ip_size, ColumnData,
  vector_column, string_column, date_column, date_time_column, date_time64_column, ip_column,
  nullable_column, fixed_string_column, array_column, decimal_column, enum8_column, enum16_column,
  chunk_column, len,
}
use clickhouse_srv.Column.Load.Offsets.{size_of_u64, length-words}
use clickhouse_srv.Column.Load.Stored.{Stored, Same}
use native.Mathlib.Nat.{mul-div_cancel}

size_pos : (p : Primitive) → 0 < size_of p
unfolding u8 u16 u32 u64 i8 i16 i32 i64 f32 f64 bool
size_pos p_u8 = omega arith
size_pos p_u16 = omega arith
size_pos p_u32 = omega arith
size_pos p_u64 = omega arith
size_pos p_i8 = omega arith
size_pos p_i16 = omega arith
size_pos p_i32 = omega arith
size_pos p_i64 = omega arith
size_pos p_f32 = omega arith
size_pos p_f64 = omega arith
size_pos p_bool = omega arith

mem_len-rows :
    (p : Primitive) (n : ℕ) (memory : List ℕ) → length memory ≡ n * size_of p → mem_len p memory ≡ n
unfolding mem_len
mem_len-rows p n memory e = ap (λ l. l / size_of p) e ∙ mul-div_cancel n (size_pos p)

ip_rows :
    (v : IpVersion) (n : ℕ) (inner : List ℕ)
    → length inner ≡ n * ip_size v
    → length inner / ip_size v ≡ n
unfolding ip_size
ip_rows v_ipv4 n inner e = omega (arith, e)
ip_rows v_ipv6 n inner e = omega (arith, e)
ip_rows v_uuid n inner e = omega (arith, e)

module _ (parsers : TypeParsers) (tz : Text) where
  pub len-Stored : (column : ColumnData) (n : ℕ) → Stored parsers column n → len column ≡ ok n
  unfolding len nullable_len fixed_string_len
  len-Stored (vector_column p memory) n (t, e, size, small) = ap ok (mem_len-rows p n memory size)
  len-Stored (string_column pool) n (ss, held, count, room, fits) =
      ap ok (len-Holds pool ss held ∙ count)
  len-Stored (date_column memory zone) n (size, small) = ap ok (mem_len-rows p_u16 n memory size)
  len-Stored (date_time_column memory zone) n (size, small) =
      ap ok (mem_len-rows p_u32 n memory size)
  len-Stored (date_time64_column memory precision zone) n h = absurd h
  len-Stored (ip_column v inner) n (size, small) = ap ok (ip_rows v n inner size)
  len-Stored (nullable_column inner nulls) n (flat, count, fits, h) =
      rw (len-Stored inner n h) (rw (eq→== (length nulls) n count))
  len-Stored (fixed_string_column buffer str_len) n (size, small, width, some_width) =
      rw (ne→== str_len 0 λ none. omega (arith, some_width, none))
        (ap ok (ap (λ l. l / str_len) size ∙ mul-div_cancel n some_width))
  len-Stored (array_column inner offsets) n (os, small, e, count, fits, h) =
      ap ok (
        mem_len-rows p_u64 n offsets
          (rw (e, size_of_u64) (length-words os ∙ ap (λ k. k * 8) count)))
  len-Stored (decimal_column inner precision scale nobits) n h = absurd h
  len-Stored (enum8_column values inner) n (e, memory, same, size, small) =
      rw same (ap ok (mem_len-rows p_i8 n memory size))
  len-Stored (enum16_column values inner) n (other, e, memory, same, size, small) =
      rw same (ap ok (mem_len-rows p_i16 n memory size))
  len-Stored (chunk_column inner start end) n h = absurd h

  pub len-Same : (column other : ColumnData) → Same tz column other → len other ≡ len column
  unfolding len nullable_len fixed_string_len
  len-Same (vector_column p memory) other e = ap len e
  len-Same (string_column pool) other (pool', e, count, gets) = ap len e ∙ ap ok count
  len-Same (date_column memory zone) other e = ap len e
  len-Same (date_time_column memory zone) other e = ap len e
  len-Same (date_time64_column memory precision zone) other e = ap len e
  len-Same (ip_column v inner) other e = ap len e
  len-Same (nullable_column inner nulls) other (inner', e, same) =
      ap len e ∙ rw (len-Same inner inner' same)
  len-Same (fixed_string_column buffer str_len) other e = ap len e
  len-Same (array_column inner offsets) other (inner', e, same) = ap len e
  len-Same (decimal_column inner precision scale nobits) other e = ap len e
  len-Same (enum8_column values inner) other e = ap len e
  len-Same (enum16_column values inner) other e = ap len e
  len-Same (chunk_column inner start end) other e = ap len e
