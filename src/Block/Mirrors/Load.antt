-- ===== src/Block/Mirrors/Load.antt =====
-- A block is loaded from data that was decompressed as from a buffer.
use clickhouse_srv.Common.{ℕ, zero, suc, ◌+◌, List, ◌++◌, length}
use clickhouse_srv.Common.Text.{Text}
use clickhouse_srv.Binary.Reader.{Reader, Read}
use clickhouse_srv.Binary.Cursor.{cursor, Cursor}
use clickhouse_srv.Scalar.{Primitive}
use clickhouse_srv.Column.StringPool.{StringPool, read_str_into_buffer}
use clickhouse_srv.Column.Memory.{read_memory}
use clickhouse_srv.Column.Data.{ColumnData, IpVersion}
use clickhouse_srv.Column.Branch.{
  TypeParsers, Branch, numbers, strings_of, dates, date_times, addresses, nullable_of,
  fixed_strings, array_of, decimals, enums8, enums16, date_times64, unsupported,
}
use clickhouse_srv.Column.Load.{
  load_vector, load_date, load_date_time, load_date_time64, load_nullable, load_array, load_decimal,
  load_enum8, load_enum16, load_strings, load_string_column, load_ip, load_fixed, load_fixed_string,
  last_offset, load_branch, load_named, load_data,
}
use clickhouse_srv.Block.Info as Info
use clickhouse_srv.Block.Data.{Block, read_column, load_columns, raw_load}
use clickhouse_srv.Block.Compressed.{Codec, CompressedReader, compressed}
use clickhouse_srv.Block.Mirrors.{
  Mirrors, Mirrors-pure, Mirrors-raise, Mirrors-lift, Mirrors-diverge, Mirrors-bind, mirror_rules,
  Mirrors-read_bytes, Mirrors-allocate, Mirrors-read_scalar, Mirrors-read_uvarint,
  Mirrors-read_string,
}

module _ (codec : Codec) {S : Type 0} ⦃r : Read S⦄ where
  Mirrors-read_str :
      (pool : StringPool)
      → Mirrors {S = S}
          (read_str_into_buffer pool)
          (read_str_into_buffer ⦃r = compressed codec⦄ pool)
  unfolding read_str_into_buffer
  Mirrors-read_str pool = search (mirror_rules, Mirrors-read_bytes, Mirrors-read_uvarint)

  Mirrors-load_strings :
      (size : ℕ) (pool : StringPool)
      → Mirrors {S = S} (load_strings size pool) (load_strings ⦃r = compressed codec⦄ size pool)
  unfolding load_strings
  Mirrors-load_strings zero pool = Mirrors-pure pool
  Mirrors-load_strings (suc size) pool =
      Mirrors-bind _ _ _ _ (Mirrors-read_str pool) (Mirrors-load_strings size)

  Mirrors-load_string_column :
      (size : ℕ)
      → Mirrors {S = S} (load_string_column size) (load_string_column ⦃r = compressed codec⦄ size)
  unfolding load_string_column
  Mirrors-load_string_column size = search (mirror_rules, Mirrors-allocate, Mirrors-load_strings)

  Mirrors-load_ip :
      (v : IpVersion) (size : ℕ)
      → Mirrors {S = S} (load_ip v size) (load_ip ⦃r = compressed codec⦄ v size)
  unfolding load_ip
  Mirrors-load_ip v size = search (mirror_rules, Mirrors-allocate, Mirrors-read_bytes)

  Mirrors-load_fixed :
      (size str_len : ℕ) (buffer : List ℕ)
      → Mirrors {S = S}
          (load_fixed size str_len buffer)
          (load_fixed ⦃r = compressed codec⦄ size str_len buffer)
  unfolding load_fixed
  Mirrors-load_fixed zero str_len buffer = Mirrors-pure buffer
  Mirrors-load_fixed (suc size) str_len buffer =
      Mirrors-bind _ _ _ _ (Mirrors-allocate codec (length buffer + str_len)) λ u.
        Mirrors-bind _ _ _ _ (Mirrors-read_bytes codec str_len)
          λ bytes. Mirrors-load_fixed size str_len (buffer ++ bytes)

  Mirrors-load_fixed_string :
      (size str_len : ℕ)
      → Mirrors {S = S}
          (load_fixed_string size str_len)
          (load_fixed_string ⦃r = compressed codec⦄ size str_len)
  unfolding load_fixed_string
  Mirrors-load_fixed_string size str_len =
      search (mirror_rules, Mirrors-allocate, Mirrors-load_fixed)

  Mirrors-read_memory :
      (p : Primitive) (size : ℕ)
      → Mirrors {S = S} (read_memory p size) (read_memory ⦃r = compressed codec⦄ p size)
  unfolding read_memory
  Mirrors-read_memory p size = search (mirror_rules, Mirrors-allocate, Mirrors-read_bytes)

  Mirrors-last_offset :
      (offsets : List ℕ) (rows : ℕ)
      → Mirrors {S = S} (last_offset offsets rows) (last_offset ⦃r = compressed codec⦄ offsets rows)
  unfolding last_offset
  Mirrors-last_offset offsets zero = Mirrors-pure 0
  Mirrors-last_offset offsets (suc rows) = Mirrors-lift _

  Mirrors-info : Mirrors {S = S} Info.read (Info.read ⦃r = compressed codec⦄)
  unfolding Info.read
  Mirrors-info = search (mirror_rules, Mirrors-read_uvarint, Mirrors-read_scalar) depth 8

  module _ (parsers : TypeParsers) (tz : Text) where
    Mirrors-load_branch :
        (inner : Text → ℕ → Reader Cursor ColumnData)
        (inner' : Text → ℕ → Reader (CompressedReader S) ColumnData)
        → ((name : Text) (size : ℕ) → Mirrors (inner name size) (inner' name size))
        → (name : Text) (size : ℕ) (found : Branch)
        → Mirrors
            (load_branch parsers tz inner name size found)
            (load_branch ⦃r = compressed codec⦄ parsers tz inner' name size found)
    unfolding load_branch load_vector load_date load_date_time load_date_time64 load_nullable
        load_array load_decimal load_enum8 load_enum16
    Mirrors-load_branch inner inner' h name size (numbers p) =
        search (mirror_rules, Mirrors-read_memory)
    Mirrors-load_branch inner inner' h name size strings_of = Mirrors-load_string_column size
    Mirrors-load_branch inner inner' h name size dates = search (mirror_rules, Mirrors-read_memory)
    Mirrors-load_branch inner inner' h name size date_times =
        search (mirror_rules, Mirrors-read_memory)
    Mirrors-load_branch inner inner' h name size (addresses v) = Mirrors-load_ip v size
    Mirrors-load_branch inner inner' h name size (nullable_of inner_type) =
        search (mirror_rules, Mirrors-allocate, Mirrors-read_bytes, h)
    Mirrors-load_branch inner inner' h name size (fixed_strings str_len) =
        Mirrors-load_fixed_string size str_len
    Mirrors-load_branch inner inner' h name size (array_of inner_type) =
        search (mirror_rules, Mirrors-read_memory, Mirrors-last_offset, h)
    Mirrors-load_branch inner inner' h name size (decimals precision scale nobits) =
        search (mirror_rules, h)
    Mirrors-load_branch inner inner' h name size (enums8 items) = search (mirror_rules, h)
    Mirrors-load_branch inner inner' h name size (enums16 items) = search (mirror_rules, h)
    Mirrors-load_branch inner inner' h name size (date_times64 precision timezone) =
        search (mirror_rules, Mirrors-read_memory)
    Mirrors-load_branch inner inner' h name size unsupported = Mirrors-raise _

    Mirrors-load_named :
        (fuel : ℕ) (name : Text) (size : ℕ)
        → Mirrors {S = S}
            (load_named parsers tz fuel name size)
            (load_named ⦃r = compressed codec⦄ parsers tz fuel name size)
    unfolding load_named
    Mirrors-load_named zero name size = Mirrors-diverge
    Mirrors-load_named (suc fuel) name size = Mirrors-bind _ _ _ _ (Mirrors-lift _) (
        Mirrors-load_branch (load_named parsers tz fuel)
          (load_named ⦃r = compressed codec⦄ parsers tz fuel) (Mirrors-load_named fuel) name size)

    Mirrors-read_column :
        (size : ℕ)
        → Mirrors {S = S}
            (read_column parsers tz size)
            (read_column ⦃r = compressed codec⦄ parsers tz size)
    unfolding read_column load_data
    Mirrors-read_column size = search (mirror_rules, Mirrors-read_string, Mirrors-load_named)

    Mirrors-load_columns :
        (num_columns num_rows : ℕ) (block : Block)
        → Mirrors {S = S}
            (load_columns parsers tz num_columns num_rows block)
            (load_columns ⦃r = compressed codec⦄ parsers tz num_columns num_rows block)
    unfolding load_columns
    Mirrors-load_columns zero num_rows block = Mirrors-pure block
    Mirrors-load_columns (suc num_columns) num_rows block =
        Mirrors-bind _ _ _ _ (Mirrors-read_column num_rows) λ column.
          Mirrors-bind _ _ _ _ (Mirrors-lift _) (Mirrors-load_columns num_columns num_rows)

    pub Mirrors-raw_load :
        Mirrors {S = S} (raw_load parsers tz) (raw_load ⦃r = compressed codec⦄ parsers tz)
    unfolding raw_load
    Mirrors-raw_load =
        search (mirror_rules, Mirrors-info, Mirrors-read_uvarint, Mirrors-load_columns)
