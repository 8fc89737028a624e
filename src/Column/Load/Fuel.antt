-- ===== src/Column/Load/Fuel.antt =====
-- The rounds of `load_named`: the length of the name and two are enough.
use clickhouse_srv.Common.Text.{Text}
use clickhouse_srv.Binary.Reader.{Reader}
use clickhouse_srv.Types.SqlType as Types
use clickhouse_srv.Column.Branch.{Branch}
