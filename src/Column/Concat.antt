-- ===== src/Column/Concat.antt =====
-- src/types/column/concat.rs: columns laid end to end. A column is its type and the list of its values;
-- sizes are those of columns in memory, so their sums stay below 2 ^ 64.
pub mod Lookup
use clickhouse_srv.Common.{
  ℕ, zero, suc, ◌+◌, ◌-◌, ◌/◌, List, [], ◌∷◌, map, length, Bool, true, ◌&&◌, ltb, leb, ◌==◌,
  if◌then◌else◌,
}
use clickhouse_srv.Types.SqlType.{SqlType, type_eq}
use clickhouse_srv.Errors.Index.{index_at}
use clickhouse_srv.Errors.{Outcome, ok, panicked, diverged, ◌>>=◌}

sums : ℕ → List ℕ → List ℕ
sums acc [] = []
sums acc (size ∷ sizes) = (acc + size) ∷ sums (acc + size) sizes

unfoldable pub build_index : List ℕ → List ℕ
unfolding sums
build_index sizes = 0 ∷ sums 0 sizes

-- `lo` and `hi` get closer in each round.
unfoldable pub find_loop : ℕ → List ℕ → ℕ → ℕ → ℕ → Outcome ℕ
find_loop zero index ix lo hi = diverged
find_loop (suc fuel) index ix lo hi =
    let skip = find_loop fuel index ix (lo + 1) hi in
    let mid = lo + (hi - lo) / 2 in
    let below = find_loop fuel index ix lo mid in
    let above = find_loop fuel index ix (mid + 1) hi in
    if ltb lo hi
    then (do
      first ← index_at index lo
      second ← index_at index (lo + 1)
      if first == second then skip else do
        at_mid ← index_at index mid
        if ltb ix at_mid then below else do
          after_mid ← index_at index (mid + 1)
          if leb after_mid ix then above else ok mid)
    else ok 0

-- An empty index has no last place.
unfoldable pub find_chunk : List ℕ → ℕ → Outcome ℕ
unfolding find_loop
find_chunk [] ix = panicked
find_chunk (i ∷ index) ix = find_loop (suc (length index)) (i ∷ index) ix 0 (length index)

pub record TypedColumn (V : Type 0) : Type 0 where
  pub sql_type : SqlType
  pub values : List V

-- `ConcatColumnData`
pub record ConcatColumnData (V : Type 0) : Type 0 where
  pub columns : List (TypedColumn V)
  pub index : List ℕ

module _ {V : Type 0} where
  abbrev pub values_of : List (TypedColumn V) → List (List V)
  values_of [] = []
  values_of (column ∷ columns) = column.values ∷ values_of columns

  all_typed : SqlType → List (TypedColumn V) → Bool
  all_typed t [] = true
  all_typed t (column ∷ columns) = type_eq t column.sql_type && all_typed t columns

  -- No columns, and columns of different types, are a panic.
  unfoldable pub check_columns : List (TypedColumn V) → Outcome (Unit {0})
  unfolding all_typed
  check_columns [] = panicked
  check_columns (first ∷ columns) = if all_typed first.sql_type columns then ok tt else panicked

  -- `ConcatColumnData::concat`
  unfoldable pub concat : List (TypedColumn V) → Outcome (ConcatColumnData V)
  unfolding check_columns
  concat columns = do
    checked ← check_columns columns
    ok (record { columns = columns; index = build_index (map length (values_of columns)) })

  -- `ColumnData::at`
  unfoldable pub at : ConcatColumnData V → ℕ → Outcome V
  at column ix = do
    chunk_index ← find_chunk column.index ix
    chunk ← index_at column.columns chunk_index
    start ← index_at column.index chunk_index
    index_at chunk.values (ix - start)
