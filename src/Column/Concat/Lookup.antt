-- ===== src/Column/Concat/Lookup.antt =====
-- The lookup of src/types/column/concat.rs against columns that are laid end to end.
use clickhouse_srv.Common.{
  ℕ, zero, suc, ◌+◌, ◌-◌, ◌/◌, ◌≤◌, ◌<◌, ◌≡◌, refl, sym, ap, ◌∙◌, List, [], ◌∷◌, ◌++◌, map, length,
  All, true, Bool-cases, inl, inr, le_or_lt, lt→ltb, le→leb, lt→leb-false, le→ltb-false, ltb, leb,
  ◌==◌, ==→eq, arith, if◌then◌else◌, length-append,
}
use clickhouse_srv.Types.SqlType.{SqlType, type_eq}
use clickhouse_srv.Errors.Index.{index_at, index_at-front, index_at-behind}
use clickhouse_srv.Errors.{Outcome, ok, ◌>>=◌}
use clickhouse_srv.Column.Concat.{
  TypedColumn, values_of, all_typed, check_columns, sums, build_index, find_loop, find_chunk,
  concat, at,
}

-- What stands at a place, and 0 behind the end.
abbrev pub place : List ℕ → ℕ → ℕ
place [] i = 0
place (x ∷ xs) zero = x
place (x ∷ xs) (suc i) = place xs i

index_at-place : (xs : List ℕ) (i : ℕ) → i < length xs → index_at xs i ≡ ok (place xs i)
unfolding index_at
index_at-place [] i h = absurd (omega arith)
index_at-place (x ∷ xs) zero h = refl
index_at-place (x ∷ xs) (suc i) h = index_at-place xs i (omega arith)

-- The round of a search that is not at its end.
find_round :
    (fuel : ℕ) (index : List ℕ) (ix lo hi : ℕ)
    → lo < hi
    → hi < length index
    → let mid = lo + (hi - lo) / 2 in
      find_loop (suc fuel) index ix lo hi ≡ (
        if place index lo == place index (lo + 1)
        then find_loop fuel index ix (lo + 1) hi
        else if ltb ix (place index mid)
        then find_loop fuel index ix lo mid
        else if leb (place index (mid + 1)) ix
        then find_loop fuel index ix (mid + 1) hi
        else ok mid)
unfolding find_loop
find_round fuel index ix lo hi h inside = rw (
  lt→ltb lo hi h,
  index_at-place index lo (omega arith),
  index_at-place index (lo + 1) (omega arith),
  index_at-place index (lo + (hi - lo) / 2) (omega arith),
  index_at-place index (lo + (hi - lo) / 2 + 1) (omega arith),
)

-- The place of `ix` between the sums of an index.
abbrev pub Holds : List ℕ → ℕ → ℕ → Type 0
Holds index ix k = (place index k ≤ ix) × (ix < place index (suc k)) × (suc k < length index)

abbrev Found : List ℕ → ℕ → Outcome ℕ → Type 0
Found index ix o = (k : ℕ) × (o ≡ ok k) × Holds index ix k

find_loop-Found :
    (fuel : ℕ) (index : List ℕ) (ix lo hi : ℕ)
    → hi - lo < fuel
    → lo ≤ hi
    → hi < length index
    → place index lo ≤ ix
    → ix < place index hi
    → Found index ix (find_loop fuel index ix lo hi)
find_loop-Found zero index ix lo hi room order inside above below = absurd (omega arith)
find_loop-Found (suc fuel) index ix lo hi room order inside above below = elim (le_or_lt hi lo) [
  | inl met ↦ let same : lo ≡ hi = omega arith in absurd (omega (arith, ap (place index) same))
  | inr apart ↦
      let mid : ℕ = lo + (hi - lo) / 2 in
      let next : mid + 1 ≡ suc mid = omega arith in
      rw (find_round fuel index ix lo hi apart inside)
        (elim (Bool-cases (place index lo == place index (lo + 1))) [
          | inl empty ↦
              let equal : place index lo ≡ place index (lo + 1) = ==→eq _ _ empty in
              rw empty (
                find_loop-Found fuel index ix (lo + 1) hi (omega arith) (omega arith) inside
                  (omega (arith, equal)) below)
          | inr full ↦ rw full (elim (le_or_lt (place index mid) ix) [
            | inr left ↦ rw (lt→ltb ix (place index mid) left) (
                find_loop-Found fuel index ix lo mid (omega arith) (omega arith) (omega arith) above
                  left)
            | inl right ↦ rw (le→ltb-false _ _ right) (elim (le_or_lt (place index (mid + 1)) ix) [
              | inl later ↦ rw (le→leb _ _ later) (
                  find_loop-Found fuel index ix (mid + 1) hi (omega arith) (omega arith) inside
                    later below)
              | inr here ↦
                  rw (lt→leb-false _ _ here)
                    (mid, refl, (right, omega (arith, ap (place index) next), omega arith))
            ])
          ])
        ])
]

-- The columns one after the other.
abbrev pub joined {ℓ} : {V : Type ℓ} → List (List V) → List V
joined [] = []
joined (column ∷ columns) = column ++ joined columns

-- The index of columns of which `acc` values stand in front.
abbrev index_from : {V : Type 0} → ℕ → List (List V) → List ℕ
index_from acc columns = acc ∷ sums acc (map length columns)

index_from-least :
    {V : Type 0} (acc : ℕ) (columns : List (List V)) (k : ℕ)
    → k < length (index_from acc columns)
    → acc ≤ place (index_from acc columns) k
unfolding sums
index_from-least acc columns zero h = omega arith
index_from-least acc [] (suc k) h = absurd (omega arith)
index_from-least acc (c ∷ columns) (suc k) h =
    omega (arith, index_from-least (acc + length c) columns k (omega arith))

index_from-last :
    {V : Type 0} (acc : ℕ) (columns : List (List V))
    → place (index_from acc columns) (length (sums acc (map length columns)))
      ≡ acc + length (joined columns)
unfolding sums
index_from-last acc [] = omega arith
index_from-last acc (c ∷ columns) =
    omega (arith, index_from-last (acc + length c) columns, length-append c (joined columns))

-- The value `ix` of the whole, in the column that holds it.
held :
    {V : Type 0} (acc : ℕ) (columns : List (List V)) (ix k : ℕ)
    → Holds (index_from acc columns) ix k
    → (index_at columns k >>= λ column. index_at column (ix - place (index_from acc columns) k))
      ≡ index_at (joined columns) (ix - acc)
unfolding sums index_at
held acc [] ix k (above, below, inside) = absurd (omega arith)
held acc (c ∷ columns) ix zero (above, below, inside) =
    sym (index_at-front c (joined columns) (ix - acc) (omega arith))
held acc (c ∷ columns) ix (suc k) (above, below, inside) =
    let least : acc + length c ≤ place (index_from (acc + length c) columns) k =
      index_from-least (acc + length c) columns k (omega arith) in
    let split : ix - acc ≡ length c + (ix - (acc + length c)) = omega arith in
    held (acc + length c) columns ix k (above, below, omega arith)
    ∙ rw split (sym (index_at-behind c (joined columns) (ix - (acc + length c))))

-- `build_index` and `find_chunk` on columns: the column that holds a value.
find_chunk-Found :
    {V : Type 0} (columns : List (List V)) (ix : ℕ)
    → ix < length (joined columns)
    → Found (index_from 0 columns) ix (find_chunk (index_from 0 columns) ix)
unfolding find_chunk
find_chunk-Found columns ix h =
    find_loop-Found (suc (length (sums 0 (map length columns)))) (index_from 0 columns) ix 0
      (length (sums 0 (map length columns))) (omega arith) (omega arith) (omega arith) (omega arith)
      (omega (arith, index_from-last 0 columns))

-- Columns of the type of the first pass the check.
checked :
    {V : Type 0} (t : SqlType) (columns : List (TypedColumn V))
    → All (λ c. type_eq t c.sql_type ≡ true) columns
    → all_typed t columns ≡ true
unfolding all_typed
checked t [] same = refl
checked t (c ∷ columns) same = rw same.0 (checked t columns same.1)

chunk-values :
    {V : Type 0} (columns : List (TypedColumn V)) (k : ℕ) (g : List V → Outcome V)
    → (index_at columns k >>= λ c. g c.values) ≡ (index_at (values_of columns) k >>= g)
unfolding index_at
chunk-values [] k g = refl
chunk-values (c ∷ columns) zero g = refl
chunk-values (c ∷ columns) (suc k) g = chunk-values columns k g

-- A concatenated column of one column at least, all of the type of the first, has, at each place below
-- the number of all values, the value that stands there when the columns are laid end to end; empty
-- columns among them do no harm.
pub at-concat :
    {V : Type 0} (first : TypedColumn V) (columns : List (TypedColumn V)) (ix : ℕ)
    → All (λ c. type_eq first.sql_type c.sql_type ≡ true) columns
    → ix < length (joined (values_of (first ∷ columns)))
    → (concat (first ∷ columns) >>= λ column. at column ix)
      ≡ index_at (joined (values_of (first ∷ columns))) ix
unfolding concat check_columns at build_index
at-concat first columns ix same h =
    let (k, found, holds) = find_chunk-Found (values_of (first ∷ columns)) ix h in
    let whole : ix - 0 ≡ ix = omega arith in
    rw (checked first.sql_type columns same) (
      rw found (
        rw (index_at-place (index_from 0 (values_of (first ∷ columns))) k (omega (arith, holds.2)))
          (chunk-values (first ∷ columns) k
              (λ vs. index_at vs (ix - place (index_from 0 (values_of (first ∷ columns))) k))
            ∙ held 0 (values_of (first ∷ columns)) ix k holds
            ∙ ap (index_at (joined (values_of (first ∷ columns)))) whole)))
