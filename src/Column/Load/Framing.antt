-- ===== src/Column/Load/Framing.antt =====
-- The columns of src/types/column read on a part of the input as on the whole.
use clickhouse_srv.Common.{ℕ, zero, suc, ◌+◌, List, ◌++◌, length}
use clickhouse_srv.Common.Text.{Text}
use clickhouse_srv.Binary.Reader.{Reader, Read}
use clickhouse_srv.Binary.ReadEx.{read_bytes}
use clickhouse_srv.Binary.Framing.{
  Extension, Framed, Framed-pure, Framed-raise, Framed-lift, Framed-diverge, Framed-bind,
  framed_rules, allocate-Framed, read_uvarint-Framed,
}
use clickhouse_srv.Scalar.{Primitive}
use clickhouse_srv.Column.StringPool.{StringPool, read_str_into_buffer}
use clickhouse_srv.Column.Memory.{read_memory}
use clickhouse_srv.Column.Data.{ColumnData, IpVersion}
use clickhouse_srv.Column.Branch.{
  TypeParsers, Branch, numbers, strings_of, dates, date_times, addresses, nullable_of,
  fixed_strings, array_of, decimals, enums8, enums16, date_times64, unsupported,
}
use clickhouse_srv.Column.Load.{
  load_vector, load_date, load_date_time, load_date_time64, load_nullable, load_array, load_decimal,
  load_enum8, load_enum16, load_strings, load_string_column, load_ip, load_fixed, load_fixed_string,
  last_offset, load_branch, load_named, load_data,
}

module _ {S : Type 0} ⦃r : Read S⦄ (x : Extension S)
    (fills : (n : ℕ) → Framed x (read_bytes n)) where
  read_str_into_buffer-Framed : (pool : StringPool) → Framed x (read_str_into_buffer pool)
  unfolding read_str_into_buffer
  read_str_into_buffer-Framed pool = search (framed_rules, fills, read_uvarint-Framed)

  load_strings-Framed : (size : ℕ) (pool : StringPool) → Framed x (load_strings size pool)
  unfolding load_strings
  load_strings-Framed zero pool = Framed-pure x pool
  load_strings-Framed (suc size) pool =
      Framed-bind x _ _ (read_str_into_buffer-Framed pool) (load_strings-Framed size)

  load_string_column-Framed : (size : ℕ) → Framed x (load_string_column size)
  unfolding load_string_column
  load_string_column-Framed size = search (framed_rules, allocate-Framed, load_strings-Framed)

  load_ip-Framed : (v : IpVersion) (size : ℕ) → Framed x (load_ip v size)
  unfolding load_ip
  load_ip-Framed v size = search (framed_rules, allocate-Framed, fills)

  load_fixed-Framed :
      (size str_len : ℕ) (buffer : List ℕ) → Framed x (load_fixed size str_len buffer)
  unfolding load_fixed
  load_fixed-Framed zero str_len buffer = Framed-pure x buffer
  load_fixed-Framed (suc size) str_len buffer =
      Framed-bind x _ _ (allocate-Framed x (length buffer + str_len)) λ u.
        Framed-bind x _ _ (fills str_len) λ bytes. load_fixed-Framed size str_len (buffer ++ bytes)

  load_fixed_string-Framed : (size str_len : ℕ) → Framed x (load_fixed_string size str_len)
  unfolding load_fixed_string
  load_fixed_string-Framed size str_len = search (framed_rules, allocate-Framed, load_fixed-Framed)

  read_memory-Framed : (p : Primitive) (size : ℕ) → Framed x (read_memory p size)
  unfolding read_memory
  read_memory-Framed p size = search (framed_rules, allocate-Framed, fills)

  last_offset-Framed : (offsets : List ℕ) (rows : ℕ) → Framed x (last_offset offsets rows)
  unfolding last_offset
  last_offset-Framed offsets zero = Framed-pure x 0
  last_offset-Framed offsets (suc rows) = Framed-lift x _

  module _ (parsers : TypeParsers) (tz : Text) where
    load_branch-Framed :
        (load_inner : Text → ℕ → Reader S ColumnData)
        → ((name : Text) (size : ℕ) → Framed x (load_inner name size))
        → (name : Text) (size : ℕ) (found : Branch)
        → Framed x (load_branch parsers tz load_inner name size found)
    unfolding load_branch load_vector load_date load_date_time load_date_time64 load_nullable
        load_array load_decimal load_enum8 load_enum16
    load_branch-Framed load_inner inner name size (numbers p) =
        search (framed_rules, read_memory-Framed)
    load_branch-Framed load_inner inner name size strings_of = load_string_column-Framed size
    load_branch-Framed load_inner inner name size dates = search (framed_rules, read_memory-Framed)
    load_branch-Framed load_inner inner name size date_times =
        search (framed_rules, read_memory-Framed)
    load_branch-Framed load_inner inner name size (addresses v) = load_ip-Framed v size
    load_branch-Framed load_inner inner name size (nullable_of inner_type) =
        search (framed_rules, allocate-Framed, fills, inner)
    load_branch-Framed load_inner inner name size (fixed_strings str_len) =
        load_fixed_string-Framed size str_len
    load_branch-Framed load_inner inner name size (array_of inner_type) =
        search (framed_rules, read_memory-Framed, last_offset-Framed, inner)
    load_branch-Framed load_inner inner name size (decimals precision scale nobits) =
        search (framed_rules, inner)
    load_branch-Framed load_inner inner name size (enums8 items) = search (framed_rules, inner)
    load_branch-Framed load_inner inner name size (enums16 items) = search (framed_rules, inner)
    load_branch-Framed load_inner inner name size (date_times64 precision timezone) =
        search (framed_rules, read_memory-Framed)
    load_branch-Framed load_inner inner name size unsupported = Framed-raise x _

    load_named-Framed :
        (fuel : ℕ) (name : Text) (size : ℕ) → Framed x (load_named parsers tz fuel name size)
    unfolding load_named
    load_named-Framed zero name size = Framed-diverge x
    load_named-Framed (suc fuel) name size =
        Framed-bind x _ _ (Framed-lift x _)
          (load_branch-Framed (load_named parsers tz fuel) (load_named-Framed fuel) name size)

    pub load_data-Framed : (name : Text) (size : ℕ) → Framed x (load_data parsers tz name size)
    unfolding load_data
    load_data-Framed name size = load_named-Framed (2 + length name) name size
