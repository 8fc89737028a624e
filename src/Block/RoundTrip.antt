-- ===== src/Block/RoundTrip.antt =====
-- A block that is written is loaded again.
use clickhouse_srv.Common.{
  ℕ, ◌+◌, ◌<◌, ◌^◌, ◌≡◌, refl, sym, ◌∙◌, List, [], ◌∷◌, ◌++◌, length, All, arith, append_assoc,
  append-nil, All-append,
}
use clickhouse_srv.Common.Text.{Text}
use clickhouse_srv.Common.Int.{InRange}
use clickhouse_srv.Errors.{ok}
use clickhouse_srv.Binary.Cursor.{cursor}
use clickhouse_srv.Binary.Varint.{varint}
use clickhouse_srv.Binary.RoundTrip.{text_bytes}
use clickhouse_srv.Binary.Gives.{
  Gives, Gives-pure, Gives-bind, Gives-free, Gives-map, Gives-lift, Readable, number_then,
  text_then,
}
use clickhouse_srv.Binary.Encoder.Writes.{
  Writes, Writes-seq, Writes-skip, Writes-uvarint, Writes-string,
}
use clickhouse_srv.Types.SqlType.{SqlType, to_string}
use clickhouse_srv.Column.Data.{sql_type, len}
use clickhouse_srv.Column.Branch.{TypeParsers}
use clickhouse_srv.Column.Branch.Names.{ok-injective}
use clickhouse_srv.Column.Load.{load_data}
use clickhouse_srv.Column.Load.Stored.{Stored, Same}
use clickhouse_srv.Column.Load.Nested.{Stored-Loads}
use clickhouse_srv.Column.Load.Sizes.{len-Stored, len-Same}
use clickhouse_srv.Block.Info as Info
use clickhouse_srv.Block.Append.{append_column-fits}
use clickhouse_srv.Block.Data.{
  Column, Block, new_block, write_column, write_columns, write_plain, row_count, read_column,
  load_columns, raw_load,
}

-- A column of `n` rows with a name and a type that are read.
abbrev pub StoredColumn : TypeParsers → ℕ → Column → Type 0
StoredColumn parsers n column =
    Readable column.name
    × Stored parsers column.values n
    × (t : SqlType) × (sql_type column.values ≡ ok t)
    × Readable (to_string t)

abbrev pub SameColumn : Text → Column → Column → Type 0
SameColumn tz column other = (other.name ≡ column.name) × Same tz column.values other.values

abbrev pub SameColumns : Text → List Column → List Column → Type 0
SameColumns tz [] [] = Unit {0}
SameColumns tz [] (d ∷ ds) = ⊥
SameColumns tz (c ∷ cs) [] = ⊥
SameColumns tz (c ∷ cs) (d ∷ ds) = SameColumn tz c d × SameColumns tz cs ds

module _ (parsers : TypeParsers) (tz : Text) (n : ℕ) where
  column-RoundTrip :
      (column : Column)
      → StoredColumn parsers n column
      → (bs : List ℕ) × Writes (write_column column) bs
        × (column' : Column) × Gives (read_column parsers tz n) bs (ok column')
        × SameColumn tz column column'
  unfolding write_column read_column load_data
  column-RoundTrip column (named, stored, t', typed', readable) =
      let (t, typed, plain, bs, writes, loads) = Stored-Loads parsers tz column.values n stored in
      let (values, given, same) = loads (2 + length (to_string t)) (omega arith) in
      let sized : len column.values ≡ ok n = len-Stored parsers tz column.values n stored in
      let type_readable : Readable (to_string t) =
        rw (ok-injective t t' (sym typed ∙ typed')) readable in
      let short_name : length column.name < 2 ^ 64 = omega (arith, named.0) in
      let short_type : length (to_string t) < 2 ^ 64 = omega (arith, type_readable.0) in
      (
        text_bytes column.name ++ (text_bytes (to_string t) ++ bs),
        record {
          at = λ buffer. rw ((Writes-string column.name short_name).at buffer) (
              rw typed (
                rw ((Writes-string (to_string t) short_type).at (buffer ++ text_bytes column.name))
                  (rw sized (rw (writes.at _) (rw (append_assoc, append_assoc))))));
        },
        record { name = column.name; values = values },
        text_then column.name _ _ _ named
            (text_then (to_string t) _ bs _ type_readable (Gives-map _ _ bs values given)),
        (refl, same),
      )

  columns-RoundTrip :
      (columns : List Column) (block : Block)
      → All (StoredColumn parsers n) columns
      → All (λ c. len c.values ≡ ok n) block.columns
      → (bs : List ℕ) × Writes (write_columns columns) bs
        × (columns' : List Column) × Gives
            (load_columns parsers tz (length columns) n block)
            bs
            (ok (record block { columns = block.columns ++ columns' }))
        × SameColumns tz columns columns'
  unfolding write_columns load_columns
  columns-RoundTrip [] block stored sized =
      ([], Writes-skip, [], rw append-nil (Gives-pure block), tt)
  columns-RoundTrip (column ∷ columns) block stored sized =
      let (bs, writes, column', given, same) = column-RoundTrip column stored.0 in
      let rows : len column'.values ≡ ok n =
        len-Same parsers tz column.values column'.values same.1
        ∙ len-Stored parsers tz column.values n stored.0.1 in
      let block' : Block = record block { columns = block.columns ++ column' ∷ [] } in
      let (rest, writes_rest, columns', given_rest, same_rest) =
        columns-RoundTrip columns block' stored.1
          (All-append (λ c. len c.values ≡ ok n) block.columns (column' ∷ []) sized (rows, tt)) in
      (
        bs ++ rest,
        Writes-seq _ _ bs rest writes writes_rest,
        column' ∷ columns',
        Gives-bind _ _ bs rest column' _ given (
            Gives-free _ _ rest block' _
              (Gives-lift _ _ (append_column-fits n column' block rows sized))
              (rw (← append_assoc block.columns (column' ∷ []) columns') given_rest)),
        (same, same_rest),
      )

-- A block of `n` rows.
abbrev pub StoredBlock : TypeParsers → ℕ → Block → Type 0
StoredBlock parsers n block =
    InRange (2 ^ 31) block.info.bucket_num
    × (length block.columns < 2 ^ 64)
    × (n < 2 ^ 64)
    × (row_count block.columns ≡ ok n)
    × All (StoredColumn parsers n) block.columns

-- What is loaded for a block: its columns, with the numbers of the fields and the capacity of a new one.
abbrev pub SameBlock : Text → Block → Block → Type 0
SameBlock tz block other =
    (other.info ≡ record block.info { num1 = 1; num2 = 2; num3 = 0 })
    × SameColumns tz block.columns other.columns

-- A block that is written without compression is loaded again, whatever follows it, where it fits in
-- memory, its columns have the same number of rows and types whose names are read, none of them decimals,
-- with 64-bit times, or cut: with the same names and the same values, the dates in the time zone
-- of the connection.
pub raw_load-write_plain :
    (parsers : TypeParsers) (tz : Text) (n : ℕ) (block : Block)
    → StoredBlock parsers n block
    → (bs : List ℕ) × Writes (write_plain block) bs
      × (block' : Block) × Gives (raw_load parsers tz) bs (ok block')
      × SameBlock tz block block'
unfolding write_plain raw_load
raw_load-write_plain parsers tz n block (bucket, count, fits, rows, stored) =
    let (info, wrote_info, read_info) = Info.read-write block.info bucket in
    let (bs, writes, columns', given, same) =
      columns-RoundTrip parsers tz n block.columns
        (record new_block { info = record block.info { num1 = 1; num2 = 2; num3 = 0 } }) stored
        tt in
    (
      info ++ (varint (length block.columns) ++ (varint n ++ bs)),
      record {
        at = λ buffer. rw (wrote_info.at buffer) (
            rw ((Writes-uvarint (length block.columns) count).at (buffer ++ info)) (
              rw rows (
                rw ((Writes-uvarint n fits).at _)
                  (rw (writes.at _) (rw (append_assoc, append_assoc, append_assoc))))));
      },
      _,
      Gives-bind _ _ info _ _ _ read_info
          (number_then (length block.columns) _ _ _ count (number_then n _ bs _ fits given)),
      (refl, same),
    )
