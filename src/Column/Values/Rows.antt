-- ===== src/Column/Values/Rows.antt =====
-- Arrays of nullable values against lists of rows.
use clickhouse_srv.Common.{
  ℕ, suc, ◌+◌, ◌-◌, ◌<◌, ◌^◌, ◌≡◌, refl, sym, ap, ◌∙◌, List, [], ◌∷◌, ◌++◌, map, length, Option,
  none, some, arith, length-append, append_assoc, ltb, lt→ltb, if◌then◌else◌,
}
use clickhouse_srv.Errors.{Outcome, ok}
use clickhouse_srv.Errors.Index.{index_at}
use clickhouse_srv.Scalar.{p_u64}
use clickhouse_srv.Types.SqlType.{SqlType}
use clickhouse_srv.Types.SqlType as Types
use clickhouse_srv.Column.Memory.{mem_at}
use clickhouse_srv.Column.Data.{ColumnData, nullable_column, array_column, sql_type, range_len}
use clickhouse_srv.Column.Load.Offsets.{words, Words, mem_at-words}
use clickhouse_srv.Column.Values.{
  ValueRef, ValueRefs, null, not_null, array, no_values, value_and, nullable_at, array_at,
  values_from, value_at,
}

-- The rows one after the other.
abbrev pub laid : {A : Type 0} → List (List A) → List A
laid [] = []
laid (row ∷ rows) = row ++ laid rows

-- The mark of a value, or of its lack.
abbrev pub mark : Option ValueRef → ℕ
mark none = 1
mark (some v) = 0

-- Where each row ends, for rows that start at a place.
abbrev pub ends : {A : Type 0} → ℕ → List (List A) → List ℕ
ends start [] = []
ends start (row ∷ rows) = (start + length row) ∷ ends (start + length row) rows

abbrev pub shown : SqlType → Option ValueRef → ValueRef
shown t none = null t
shown t (some v) = not_null v

abbrev pub shown_all : SqlType → List (Option ValueRef) → ValueRefs
shown_all t [] = no_values
shown_all t (v ∷ vs) = value_and (shown t v) (shown_all t vs)

-- A column that has the values that are there; under a mark anything may stand.
abbrev pub Has : (ℕ → Outcome ValueRef) → ℕ → List (Option ValueRef) → Type 0
Has inner_at start [] = Unit {0}
Has inner_at start (none ∷ vs) = Has inner_at (start + 1) vs
Has inner_at start (some v ∷ vs) = (inner_at start ≡ ok v) × Has inner_at (start + 1) vs

index_at-map :
    (vs more : List (Option ValueRef)) (v : Option ValueRef)
    → index_at (map mark (vs ++ v ∷ more)) (length vs) ≡ ok (mark v)
unfolding index_at
index_at-map [] more v = refl
index_at-map (w ∷ vs) more v = index_at-map vs more v

abbrev Shows : (ℕ → Outcome ValueRef) → SqlType → ℕ → List (Option ValueRef) → Type 0
Shows value t i [] = Unit {0}
Shows value t i (v ∷ vs) = (value i ≡ ok (shown t v)) × Shows value t (i + 1) vs

nullable-shown :
    (inner_at : ℕ → Outcome ValueRef) (t : SqlType) (nulls : List ℕ) (i : ℕ) (v : Option ValueRef)
    (vs : List (Option ValueRef))
    → index_at nulls i ≡ ok (mark v)
    → Has inner_at i (v ∷ vs)
    → nullable_at (ok t) inner_at nulls i ≡ ok (shown t v)
unfolding nullable_at
nullable-shown inner_at t nulls i none vs e has = rw e
nullable-shown inner_at t nulls i (some v) vs e has = rw e (rw has.0)

tail-Has :
    (inner_at : ℕ → Outcome ValueRef) (i : ℕ) (v : Option ValueRef) (vs : List (Option ValueRef))
    → Has inner_at i (v ∷ vs)
    → Has inner_at (i + 1) vs
tail-Has inner_at i none vs has = has
tail-Has inner_at i (some v) vs has = has.1

-- The values of a nullable column from a place on.
nullable-Shows :
    (inner_at : ℕ → Outcome ValueRef) (t : SqlType) (before vs more all : List (Option ValueRef))
    (i : ℕ)
    → before ++ (vs ++ more) ≡ all
    → length before ≡ i
    → Has inner_at i vs
    → Shows (nullable_at (ok t) inner_at (map mark all)) t i vs
nullable-Shows inner_at t before [] more all i e place has = tt
nullable-Shows inner_at t before (v ∷ vs) more all i e place has = (
  nullable-shown inner_at t (map mark all) i v vs
      (rw (← e, ← place) (index_at-map before (vs ++ more) v)) has,
  nullable-Shows inner_at t (before ++ v ∷ []) vs more all (i + 1)
      (append_assoc before (v ∷ []) (vs ++ more) ∙ e) (omega (arith, length-append before (v ∷ [])))
      (tail-Has inner_at i v vs has),
)

values_from-Shows :
    (value : ℕ → Outcome ValueRef) (t : SqlType) (i : ℕ) (vs : List (Option ValueRef))
    → Shows value t i vs
    → values_from value (length vs) i ≡ ok (shown_all t vs)
unfolding values_from
values_from-Shows value t i [] shows = refl
values_from-Shows value t i (v ∷ vs) shows =
    rw shows.0 (rw (values_from-Shows value t (i + 1) vs shows.1))

module _ {A : Type 0} where
  -- Where the row behind `front` starts, and where it ends.
  start-ends :
      (front : List (List A)) (row : List A) (back : List (List A)) (start : ℕ)
      → index_at (start ∷ ends start (front ++ row ∷ back)) (length front)
        ≡ ok (start + length (laid front))
  unfolding index_at
  start-ends [] row back start = ap ok (omega arith)
  start-ends (r ∷ front) row back start =
      start-ends front row back (start + length r)
      ∙ ap ok (omega (arith, length-append r (laid front)))

  end-ends :
      (front : List (List A)) (row : List A) (back : List (List A)) (start : ℕ)
      → index_at (ends start (front ++ row ∷ back)) (length front)
        ≡ ok (start + length (laid front) + length row)
  unfolding index_at
  end-ends [] row back start = ap ok (omega arith)
  end-ends (r ∷ front) row back start =
      end-ends front row back (start + length r)
      ∙ ap ok (omega (arith, length-append r (laid front)))

  Words-ends :
      (rows : List (List A)) (start : ℕ)
      → start + length (laid rows) < 2 ^ 64
      → Words (ends start rows)
  Words-ends [] start small = tt
  Words-ends (row ∷ rows) start small =
      let size : length (laid (row ∷ rows)) ≡ length row + length (laid rows) =
        length-append row (laid rows) in
      (omega arith, Words-ends rows (start + length row) (omega arith))

  length-ends : (rows : List (List A)) (start : ℕ) → length (ends start rows) ≡ length rows
  length-ends [] start = refl
  length-ends (row ∷ rows) start = ap suc (length-ends rows (start + length row))

  laid-append : (front back : List (List A)) → laid (front ++ back) ≡ laid front ++ laid back
  laid-append [] back = refl
  laid-append (r ∷ front) back =
      ap (λ (t : List A). r ++ t) (laid-append front back)
      ∙ sym (append_assoc r (laid front) (laid back))

module _ (front : List (List (Option ValueRef))) (row : List (Option ValueRef))
    (back : List (List (Option ValueRef)))
    (fits : length (laid (front ++ row ∷ back)) < 2 ^ 64) where
  abbrev rows : List (List (Option ValueRef))
  rows = front ++ row ∷ back

  row_end :
      mem_at p_u64 (words (ends 0 rows)) (length front) ≡ ok (length (laid front) + length row)
  row_end =
      mem_at-words (ends 0 rows) (length front)
        (omega (arith, length-ends rows 0, length-append front (row ∷ back)))
        (Words-ends rows 0 (omega arith))
      ∙ end-ends front row back 0
      ∙ ap ok (omega arith)

row_start :
    (front : List (List (Option ValueRef))) (row : List (Option ValueRef))
    (back : List (List (Option ValueRef)))
    → length (laid (front ++ row ∷ back)) < 2 ^ 64
    → (if ltb 0 (length front)
        then mem_at p_u64 (words (ends 0 (front ++ row ∷ back))) (length front - 1)
        else ok 0)
      ≡ ok (length (laid front))
row_start [] row back fits = refl
row_start (r ∷ front) row back fits =
    let rows : List (List (Option ValueRef)) = r ∷ front ++ row ∷ back in
    let last : suc (length front) - 1 ≡ length front = omega arith in
    rw (lt→ltb 0 (suc (length front)) (omega arith), last)
      (mem_at-words (ends 0 rows) (length front)
          (omega (arith, length-ends rows 0, length-append front (row ∷ back)))
          (Words-ends rows 0 (omega arith))
        ∙ start-ends front row back (0 + length r)
        ∙ ap ok (omega (arith, length-append r (laid front))))

-- A column of arrays of nullable values whose offsets are the ends of some rows, fewer than 2 ^ 63 values
-- in all, and whose marks of nulls are those of the rows laid end to end, over a column that has the
-- values of a row that are there at their places: the value at the place of that row is the array of
-- its values, with nulls where they are missing.
pub value_at-row :
    (inner : ColumnData) (t : SqlType) (front : List (List (Option ValueRef)))
    (row : List (Option ValueRef)) (back : List (List (Option ValueRef)))
    → sql_type inner ≡ ok t
    → length (laid (front ++ row ∷ back)) < 2 ^ 63
    → Has (value_at inner) (length (laid front)) row
    → value_at
        (array_column
          (nullable_column inner (map mark (laid (front ++ row ∷ back))))
          (words (ends 0 (front ++ row ∷ back))))
        (length front)
      ≡ ok (array (Types.nullable t) (shown_all t row))
unfolding value_at array_at sql_type range_len
value_at-row inner t front row back typed fits has =
    let rows : List (List (Option ValueRef)) = front ++ row ∷ back in
    let room : length (laid front) + length row < 2 ^ 63 = omega (
      arith,
      ap length (laid-append front (row ∷ back)),
      length-append (laid front) (row ++ laid back),
      length-append row (laid back),
    ) in
    let size : length (laid front) + length row - length (laid front) ≡ length row = omega arith in
    rw typed (
      rw (row_start front row back (omega arith)) (
        rw (row_end front row back (omega arith), lt→ltb _ (2 ^ 63) room)
          (rw size (
            rw
              (values_from-Shows (nullable_at (ok t) (value_at inner) (map mark (laid rows))) t
                (length (laid front)) row
                (nullable-Shows (value_at inner) t (laid front) row (laid back) (laid rows)
                  (length (laid front)) (sym (laid-append front (row ∷ back))) refl has))
              refl))))
