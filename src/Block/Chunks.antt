-- ===== src/Block/Chunks.antt =====
-- src/types/block/chunk_iterator.rs: the chunks of a block.
use clickhouse_srv.Common.{
  ℕ, zero, suc, ◌+◌, ◌-◌, ◌≤◌, ◌<◌, ◌≡◌, refl, sym, ap, ◌∙◌, min, List, [], ◌∷◌, ◌++◌, map, All,
  inl, inr, arith, append-nil, append_assoc, All-append, ne→==, le→leb, lt→leb-false, le_or_lt,
}
use clickhouse_srv.Errors.{ok}
use clickhouse_srv.Column.Data.{chunk_column, len, range_len}
use clickhouse_srv.Block.Data.{
  Column, Block, new_block, row_count, slice_columns, chunks_loop, chunks,
}
use clickhouse_srv.Block.Append.{append_column-fits}

-- The rows `start` to `end` of a column.
abbrev cut : ℕ → ℕ → Column → Column
cut start end column = record { name = column.name; values = chunk_column column.values start end }

-- Blocks of one to `n` rows that are cut from the columns one behind the other, from row `p` to row `m`.
abbrev pub Pieces : List Column → ℕ → ℕ → ℕ → List Block → Type 0
Pieces columns n p m [] = p ≡ m
Pieces columns n p m (block ∷ blocks) =
    (rows : ℕ) × (0 < rows)
    × (rows ≤ n)
    × (p + rows ≤ m)
    × (block.columns ≡ map (cut p (p + rows)) columns)
    × Pieces columns n (p + rows) m blocks

len-cut :
    (start rows : ℕ) (column : Column) → len (cut start (start + rows) column).values ≡ ok rows
unfolding len range_len
len-cut start rows column = ap ok (omega arith)

slice_columns-cut :
    (start rows : ℕ) (columns : List Column) (result : Block)
    → All (λ c. len c.values ≡ ok rows) result.columns
    → (block : Block) × (slice_columns start (start + rows) columns result ≡ ok block)
      × (block.columns ≡ result.columns ++ map (cut start (start + rows)) columns)
unfolding slice_columns
slice_columns-cut start rows [] result sized = (result, refl, sym (append-nil _))
slice_columns-cut start rows (column ∷ columns) result sized =
    let piece : Column = cut start (start + rows) column in
    let next : Block = record result { columns = result.columns ++ piece ∷ [] } in
    let (block, sliced, e) = slice_columns-cut start rows columns next (
      All-append (λ c. len c.values ≡ ok rows) result.columns (piece ∷ []) sized
        (len-cut start rows column, tt)) in
    (
      block,
      rw (append_column-fits rows piece result (len-cut start rows column) sized) sliced,
      e ∙ append_assoc result.columns (piece ∷ []) _,
    )

chunks_loop-Pieces :
    (fuel n p m : ℕ) (block : Block)
    → 0 < n
    → 0 < m
    → p ≤ m
    → m - p < fuel
    → row_count block.columns ≡ ok m
    → (blocks : List Block) × (chunks_loop fuel n p block ≡ ok blocks)
      × Pieces block.columns n p m blocks
unfolding chunks_loop
chunks_loop-Pieces zero n p m block some_size some_rows inside enough count = absurd (omega arith)
chunks_loop-Pieces (suc fuel) n p m block some_size some_rows inside enough count =
    elim (le_or_lt m p) [
      | inl all ↦ ([], rw (count, ne→== m 0 (omega arith), le→leb m p all), omega arith)
      | inr more ↦
          let rows : ℕ = min n (m - p) in
          let (chunk, sliced, e) = slice_columns-cut p rows block.columns new_block tt in
          let (blocks, given, pieces) =
            chunks_loop-Pieces fuel n (p + rows) m block some_size some_rows (omega arith)
              (omega arith) count in
          (
            chunk ∷ blocks,
            rw (count, ne→== m 0 (omega arith), lt→leb-false m p more, sliced, given),
            (rows, omega arith, omega arith, omega arith, e, pieces),
          )
    ]

-- A block with a row at least is cut, for a size that is not zero, into chunks that have one to `n` rows
-- each and take up all its rows one behind the other, each with all the columns under their names.
pub chunks-Pieces :
    (n m : ℕ) (block : Block)
    → 0 < n
    → 0 < m
    → row_count block.columns ≡ ok m
    → (blocks : List Block) × (chunks n block ≡ ok blocks) × Pieces block.columns n 0 m blocks
unfolding chunks
chunks-Pieces n m block some_size some_rows count =
    let (blocks, given, pieces) =
      chunks_loop-Pieces (2 + m) n 0 m block some_size some_rows (omega arith) (omega arith)
        count in
    (blocks, rw count given, pieces)
