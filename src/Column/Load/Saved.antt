-- ===== src/Column/Load/Saved.antt =====
-- `load_data` of src/types/column/factory.rs on what the columns save.
use clickhouse_srv.Common.{ℕ, ◌+◌, ◌≡◌, sym, ◌∙◌, List, length, arith}
use clickhouse_srv.Common.Text.{Text}
use clickhouse_srv.Errors.{ok}
use clickhouse_srv.Types.SqlType.{SqlType, to_string}
use clickhouse_srv.Binary.Cursor.{cursor}
use clickhouse_srv.Binary.Gives.{Gives}
use clickhouse_srv.Binary.Encoder.Writes.{Writes}
use clickhouse_srv.Column.Data.{ColumnData, sql_type, save}
use clickhouse_srv.Column.Branch.{TypeParsers}
use clickhouse_srv.Column.Branch.Names.{ok-injective}
use clickhouse_srv.Column.Load.{load_data}
use clickhouse_srv.Column.Load.Stored.{Stored, Same}
use clickhouse_srv.Column.Load.Nested.{Stored-Loads}

-- A column of `n` values that fits in memory, neither of decimals, of 64-bit times, nor cut, whose enum
-- names are read by the parsers, and whose type has the name `to_string t`, is loaded by that name from the
-- bytes that it is saved as, whatever follows them, with the same values, its dates in the time zone of
-- the connection.
pub load_data-save :
    (parsers : TypeParsers) (tz : Text) (column : ColumnData) (n : ℕ) (t : SqlType)
    → Stored parsers column n
    → sql_type column ≡ ok t
    → (bs : List ℕ) × Writes (save column 0 n) bs
      × (column' : ColumnData) × Gives (load_data parsers tz (to_string t) n) bs (ok column')
      × Same tz column column'
unfolding load_data
load_data-save parsers tz column n t stored typed =
    let (t', typed', plain, bs, writes, loads) = Stored-Loads parsers tz column n stored in
    let same_type : t' ≡ t = ok-injective t' t (sym typed' ∙ typed) in
    let (column', given, same) = loads (2 + length (to_string t')) (omega arith) in
    (bs, writes, column', rw (← same_type) given, same)
