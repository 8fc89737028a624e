-- ===== src/Block/Data.antt =====
-- `Column` of src/types/column/mod.rs and `Block` of src/types/block/mod.rs, with the chunks of
-- src/types/block/chunk_iterator.rs.
use clickhouse_srv.Common.{
  ℕ, zero, suc, ◌+◌, ◌-◌, min, List, [], ◌∷◌, ◌++◌, length, ◌&&◌, leb, ◌==◌, if◌then◌else◌,
}
use clickhouse_srv.Common.Text.{Text, text_eq}
use clickhouse_srv.Errors.{Outcome, ok, err, panicked, diverged, from_sql, out_of_range, ◌>>=◌}
use clickhouse_srv.Binary.Reader.{Reader, Read}
use clickhouse_srv.Binary.Reader
use clickhouse_srv.Binary.ReadEx.{read_uvarint, read_string}
use clickhouse_srv.Binary.Encoder.{Encode, skip, uvarint, string}
use clickhouse_srv.Binary.Encoder
use clickhouse_srv.Types.SqlType.{to_string}
use clickhouse_srv.Column.Data.{ColumnData, chunk_column, sql_type, len, save}
use clickhouse_srv.Column.Branch.{TypeParsers}
use clickhouse_srv.Column.Load.{load_data}
use clickhouse_srv.Block.Info.{BlockInfo, default_info}
use clickhouse_srv.Block.Info

abbrev pub insert_block_size : ℕ
insert_block_size = 1048576

abbrev pub default_capacity : ℕ
default_capacity = 100

pub record Column : Type 0 where
  pub name : Text
  pub values : ColumnData

pub record Block : Type 0 where
  pub info : BlockInfo
  pub columns : List Column
  pub capacity : ℕ

-- `Block::new` and `Block::default`
abbrev pub new_block : Block
new_block = record { info = default_info; columns = []; capacity = default_capacity }

abbrev pub default_block : Block
default_block = record { info = default_info; columns = []; capacity = 0 }

-- `Column::write`
unfoldable pub write_column : Column → Encode
write_column column e = Encoder.string column.name e >>= λ e. sql_type column.values >>= λ t.
    Encoder.string (to_string t) e >>= λ e. len column.values >>= λ n. save column.values 0 n e

unfoldable pub row_count : List Column → Outcome ℕ
row_count [] = ok 0
row_count (column ∷ columns) = len column.values

unfoldable pub append_column : Column → Block → Outcome Block
unfolding row_count
append_column column block = do
  column_len ← len column.values
  rows ← elim block.columns [ [] ↦ ok column_len | c ∷ columns ↦ row_count (c ∷ columns) ]
  if rows == column_len
      then ok (record block { columns = block.columns ++ column ∷ [] })
      else panicked

unfoldable pub write_columns : List Column → Encode
unfolding write_column
write_columns [] = skip
write_columns (column ∷ columns) = Encoder.◌>>◌ (write_column column) (write_columns columns)

-- `Block::write` without compression.
unfoldable pub write_plain : Block → Encode
unfolding row_count write_columns
write_plain block e = Info.write block.info e >>= λ e. uvarint (length block.columns) e >>= λ e.
    row_count block.columns >>= λ rows. uvarint rows e >>= write_columns block.columns

module _ {S : Type 0} ⦃r : Read S⦄ (parsers : TypeParsers) (tz : Text) where
  -- `Column::read`
  unfoldable pub read_column : ℕ → Reader S Column
  read_column size = Reader.◌>>=◌ read_string λ name. Reader.◌>>=◌ read_string λ type_name.
      Reader.◌>>=◌ (load_data parsers tz type_name size)
        λ values. Reader.pure (record { name = name; values = values })

  -- `num_columns` columns are still to be read.
  unfoldable pub load_columns : ℕ → ℕ → Block → Reader S Block
  unfolding read_column append_column
  load_columns zero num_rows block = Reader.pure block
  load_columns (suc num_columns) num_rows block = Reader.◌>>=◌ (read_column num_rows) λ column.
      Reader.◌>>=◌ (Reader.lift (append_column column block)) (load_columns num_columns num_rows)

  unfoldable pub raw_load : Reader S Block
  unfolding load_columns
  raw_load = Reader.◌>>=◌ Info.read λ info. Reader.◌>>=◌ read_uvarint λ num_columns.
      Reader.◌>>=◌ read_uvarint
        λ num_rows. load_columns num_columns num_rows (record new_block { info = info })

-- `ColumnIdx::get_index` for a name: the first column of that name.
find_name : Text → ℕ → List Column → Outcome ℕ
find_name name i [] = err (from_sql out_of_range)
find_name name i (column ∷ columns) =
    let rest = find_name name (i + 1) columns in if text_eq column.name name then ok i else rest

unfoldable pub get_index : Text → List Column → Outcome ℕ
unfolding find_name
get_index name columns = find_name name 0 columns

-- Each column is cut, and put behind those that were cut before it.
unfoldable pub slice_columns : ℕ → ℕ → List Column → Block → Outcome Block
unfolding append_column
slice_columns start end [] result = ok result
slice_columns start end (column ∷ columns) result =
    append_column (record { name = column.name; values = chunk_column column.values start end })
      result
    >>= slice_columns start end columns

-- `ChunkIterator::next`, called until it returns nothing; `position` grows in each round.
unfoldable pub chunks_loop : ℕ → ℕ → ℕ → Block → Outcome (List Block)
unfolding slice_columns
chunks_loop zero n position block = diverged
chunks_loop (suc fuel) n position block = do
  m ← row_count block.columns
  if m == 0 && position == 0
      then (do
        chunk ← slice_columns 0 0 block.columns default_block
        rest ← chunks_loop fuel n (position + 1) block
        ok (chunk ∷ rest))
      else if leb m position
      then ok []
      else do
        chunk ← slice_columns position (position + min n (m - position)) block.columns new_block
        rest ← chunks_loop fuel n (position + min n (m - position)) block
        ok (chunk ∷ rest)

-- A chunk has a row at least, but for the one of a block without rows.
unfoldable pub chunks : ℕ → Block → Outcome (List Block)
unfolding chunks_loop row_count
chunks n block = row_count block.columns >>= λ m. chunks_loop (2 + m) n 0 block
