-- ===== src/Column/Tests.antt =====
-- Runs of `find_chunk` and `ConcatColumnData`; the first are tests of src/types/column/concat.rs.
use clickhouse_srv.Common.{ℕ, List, ◌≡◌, refl, [], ◌∷◌, arith}
use clickhouse_srv.Types.SqlType.{uint8, type_eq}
use clickhouse_srv.Errors.Index.{index_at}
use clickhouse_srv.Errors.{ok, ◌>>=◌}
use clickhouse_srv.Column.Concat.{TypedColumn, values_of, build_index, find_chunk, concat, at}
use clickhouse_srv.Column.Concat.Lookup.{joined, at-concat}

build_index_test : build_index (2 ∷ 3 ∷ 4 ∷ []) ≡ 0 ∷ 2 ∷ 5 ∷ 9 ∷ []
unfolding build_index
build_index_test = refl

find_chunk_test : find_chunk (0 ∷ 2 ∷ 5 ∷ 9 ∷ []) 5 ≡ ok 2
unfolding find_chunk index_at
find_chunk_test = refl

find_chunk_empty_test : find_chunk (0 ∷ 0 ∷ 5 ∷ []) 4 ≡ ok 1
unfolding find_chunk index_at
find_chunk_empty_test = refl

find_chunk_beyond_test : find_chunk (0 ∷ 0 ∷ 5 ∷ []) 5 ≡ ok 0
unfolding find_chunk index_at
find_chunk_beyond_test = refl

abbrev first : TypedColumn ℕ
first = record { sql_type = uint8; values = 10 ∷ [] }

abbrev others : List (TypedColumn ℕ)
others = record first { values = [] } ∷ record first { values = 20 ∷ 30 ∷ [] } ∷ []

at-concat_example :
    (concat (first ∷ others) >>= λ column. at column 2)
    ≡ index_at (joined (values_of (first ∷ others))) 2
unfolding type_eq
at-concat_example = at-concat first others 2 (refl, (refl, tt)) (omega arith)
