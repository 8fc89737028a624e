-- ===== src/Block/Append.antt =====
-- `Block::append_column` of src/types/block/mod.rs where the numbers of rows agree.
use clickhouse_srv.Common.{ℕ, ◌≡◌, refl, List, [], ◌∷◌, ◌++◌, All, ◌==◌, eq→==, if◌then◌else◌}
use clickhouse_srv.Errors.{Outcome, ok, panicked, ◌>>=◌}
use clickhouse_srv.Column.Data.{len}
use clickhouse_srv.Block.Data.{Column, Block, row_count, append_column}

-- A column of as many rows as those before it is put behind them.
pub append_column-fits :
    (n : ℕ) (column : Column) (block : Block)
    → len column.values ≡ ok n
    → All (λ c. len c.values ≡ ok n) block.columns
    → append_column column block ≡ ok (record block { columns = block.columns ++ column ∷ [] })
unfolding append_column row_count
append_column-fits n column block e all = rw e (by_columns block.columns all)
  where
    by_columns :
        (columns : List Column)
        → All (λ c. len c.values ≡ ok n) columns
        → (elim columns as (λ _. Outcome ℕ) [ [] ↦ ok n | c ∷ cs ↦ row_count (c ∷ cs) ] >>= λ rows.
            if rows == n
            then ok (record block { columns = block.columns ++ column ∷ [] })
            else panicked)
          ≡ ok (record block { columns = block.columns ++ column ∷ [] })
    by_columns [] all = rw (eq→== n n refl)
    by_columns (c ∷ cs) all = rw (all.0) (rw (eq→== n n refl))
