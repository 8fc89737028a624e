-- ===== src/Column/Load/Nested.antt =====
-- Columns that hold another one are loaded as they were saved.
use clickhouse_srv.Common.{
  ℕ, ◌-◌, ◌*◌, ◌<◌, ◌^◌, ◌≡◌, refl, sym, ap, ◌∙◌, List, [], ◌++◌, length, some, none, arith,
  length-append, append_assoc,
}
use clickhouse_srv.Common.Text.{Text, text}
use clickhouse_srv.Common.Int.{ℤ}
use clickhouse_srv.Scalar.{p_u64, p_i8, p_i16}
use clickhouse_srv.Types.SqlType.{SqlType, to_string}
use clickhouse_srv.Types.SqlType as Types
use clickhouse_srv.Binary.Cursor.{cursor}
use clickhouse_srv.Binary.Gives.{
  Gives-bind, Gives-free, Gives-map, Gives-allocate, Gives-read_bytes,
}
use clickhouse_srv.Binary.Encoder.Writes.{Writes}
use clickhouse_srv.Column.Memory.{size_of}
use clickhouse_srv.Column.TypeName.{starts_with}
use clickhouse_srv.Column.Branch.{TypeParsers}
use clickhouse_srv.Column.Data.{
  nullable_save, array_save, range_len, save_offsets, ColumnData, vector_column, string_column,
  date_column, date_time_column, date_time64_column, ip_column, nullable_column,
  fixed_string_column, array_column, decimal_column, enum8_column, enum16_column, chunk_column,
  sql_type, save,
}
use clickhouse_srv.Column.Load.{
  load_vector, load_date, load_date_time, load_date_time64, load_nullable, load_array, load_decimal,
  load_enum8, load_enum16, load_branch,
}
use clickhouse_srv.Column.Load.Offsets.{words, Words, last_of}
use clickhouse_srv.Column.Load.Stored.{Flat, Stored}
use clickhouse_srv.Column.Load.Memory.{Writes-save_data, Gives-read_memory}
use clickhouse_srv.Column.Branch.{nullable_of, array_of, enums8, enums16}
use clickhouse_srv.Column.Branch.Names.{
  Ascii-name, branch-nullable, branch-array, branch-enum8, branch-enum16,
}
use clickhouse_srv.Column.Load.Offsets.{
  size_of_u64, length-words, Writes-save_offsets, Gives-last_offset,
}
use clickhouse_srv.Column.Load.RoundTrip.{
  Loads, nested, Gives-number, numbers-Loads, strings-Loads, dates-Loads, date_times-Loads,
  addresses-Loads, fixed-Loads,
}
use clickhouse_srv.Errors.Index.{slice_whole}
use clickhouse_srv.Binary.Encoder.Writes.{Writes-write_bytes}

module _ (parsers : TypeParsers) (tz : Text) where
  Writes-nullable :
      (inner : ColumnData) (nulls bs : List ℕ) (n : ℕ)
      → length nulls ≡ n
      → Writes (save inner 0 n) bs
      → Writes (save (nullable_column inner nulls) 0 n) (nulls ++ bs)
  unfolding save nullable_save array_save
  Writes-nullable inner nulls bs n count wi = record {
    at = λ buffer. rw (slice_whole nulls n (sym count)) (
        rw ((Writes-write_bytes nulls).at buffer) (rw (wi.at (buffer ++ nulls)) (rw append_assoc)));
  }

  nullable-Loads :
      (inner : ColumnData) (nulls : List ℕ) (n : ℕ)
      → Flat inner
      → length nulls ≡ n
      → n < 2 ^ 63
      → Loads parsers tz inner n
      → Loads parsers tz (nullable_column inner nulls) n
  unfolding sql_type to_string load_branch load_vector load_date load_date_time load_date_time64
      load_nullable load_array load_decimal load_enum8 load_enum16
  nullable-Loads inner nulls n flat count fits (t, typed, plain, bs, writes, loads) =
      nested parsers tz (nullable_column inner nulls) n (Types.nullable t)
        (nullable_of (to_string t)) (nulls ++ bs) (rw typed) (λ none. absurd none)
        (branch-nullable parsers (to_string t) (Ascii-name t) (plain flat))
        (Writes-nullable inner nulls bs n count writes)
        λ fuel h.
          let (inner', given, same) =
            loads fuel (omega (arith, length-append (to_string t) (text ")"))) in
          (
            nullable_column inner' nulls,
            Gives-free _ _ (nulls ++ bs) _ _ (Gives-allocate n fits) (
                Gives-bind _ _ nulls bs nulls _ (Gives-read_bytes n nulls count)
                  (Gives-map _ (λ c. nullable_column c nulls) bs inner' given)),
            (inner', refl, same),
          )

  Writes-array :
      (inner : ColumnData) (os bs : List ℕ)
      → Words os
      → Writes (save inner 0 (last_of 0 os)) bs
      → Writes (save (array_column inner (words os)) 0 (length os)) (words os ++ bs)
  unfolding save range_len nullable_save array_save
  Writes-array inner os bs small writes =
      let rows : length os - 0 ≡ length os = omega arith in
      record {
        at = λ buffer.
            ap (λ k. save_offsets (words os) k 0 0 (save inner 0) (record { buffer = buffer })) rows
            ∙ (Writes-save_offsets [] os 0 (save inner 0) bs 0 small refl writes).at buffer;
      }

  array-Loads :
      (inner : ColumnData) (os : List ℕ)
      → Words os
      → length (words os) < 2 ^ 63
      → Loads parsers tz inner (last_of 0 os)
      → Loads parsers tz (array_column inner (words os)) (length os)
  unfolding sql_type to_string load_branch load_vector load_date load_date_time load_date_time64
      load_nullable load_array load_decimal load_enum8 load_enum16 starts_with
  array-Loads inner os small fits (t, typed, plain, bs, writes, loads) =
      nested parsers tz (array_column inner (words os)) (length os) (Types.array t)
        (array_of (to_string t)) (words os ++ bs) (rw typed) (λ flat. refl)
        (branch-array parsers (to_string t) (Ascii-name t)) (Writes-array inner os bs small writes)
        λ fuel h.
          let (inner', given, same) =
            loads fuel (omega (arith, length-append (to_string t) (text ")"))) in
          (
            array_column inner' (words os),
            Gives-bind _ _ (words os) bs (words os) _
                (Gives-read_memory p_u64 (length os) (words os) (rw size_of_u64 (length-words os))
                  fits)
                (Gives-free _ _ bs _ _ (Gives-last_offset os small)
                  (Gives-map _ (λ c. array_column c (words os)) bs inner' given)),
            (inner', refl, same),
          )

  enum8-Loads :
      (values : List (Text × ℤ)) (memory : List ℕ) (n : ℕ)
      → parsers.parse_enum8 (to_string (Types.enum8 values)) ≡ some values
      → length memory ≡ n * size_of p_i8
      → length memory < 2 ^ 63
      → Loads parsers tz (enum8_column values (vector_column p_i8 memory)) n
  unfolding sql_type Types.sql_type to_string load_branch load_vector load_date load_date_time
      load_date_time64 load_nullable load_array load_decimal load_enum8 load_enum16 save starts_with
  enum8-Loads values memory n e size small =
      nested parsers tz (enum8_column values (vector_column p_i8 memory)) n (Types.enum8 values)
        (enums8 values) memory refl (λ flat. refl) (branch-enum8 parsers values _ e)
        (Writes-save_data (size_of p_i8) n memory size)
        λ fuel h. (
          enum8_column values (vector_column p_i8 memory),
          Gives-map _ (enum8_column values) memory (vector_column p_i8 memory)
              (Gives-number parsers tz p_i8 Types.int8 memory n fuel refl size small (omega arith)),
          refl,
        )

  enum16-Loads :
      (values : List (Text × ℤ)) (memory : List ℕ) (n : ℕ)
      → parsers.parse_enum8 (to_string (Types.enum16 values)) ≡ none
      → parsers.parse_enum16 (to_string (Types.enum16 values)) ≡ some values
      → length memory ≡ n * size_of p_i16
      → length memory < 2 ^ 63
      → Loads parsers tz (enum16_column values (vector_column p_i16 memory)) n
  unfolding sql_type Types.sql_type to_string load_branch load_vector load_date load_date_time
      load_date_time64 load_nullable load_array load_decimal load_enum8 load_enum16 save starts_with
  enum16-Loads values memory n other e size small =
      nested parsers tz (enum16_column values (vector_column p_i16 memory)) n (Types.enum16 values)
        (enums16 values) memory refl (λ flat. refl) (branch-enum16 parsers values _ other e)
        (Writes-save_data (size_of p_i16) n memory size)
        λ fuel h. (
          enum16_column values (vector_column p_i16 memory),
          Gives-map _ (enum16_column values) memory (vector_column p_i16 memory) (
              Gives-number parsers tz p_i16 Types.int16 memory n fuel refl size small
                (omega arith)),
          refl,
        )

  -- Every column that is stored so is loaded from the bytes that it is saved as.
  pub Stored-Loads :
      (column : ColumnData) (n : ℕ) → Stored parsers column n → Loads parsers tz column n
  Stored-Loads (vector_column p memory) n h = numbers-Loads parsers tz p memory n h
  Stored-Loads (string_column pool) n (ss, held, count, room, fits) =
      rw (← count) (strings-Loads parsers tz pool ss held (rw count room) (rw count fits))
  Stored-Loads (date_column memory zone) n h = dates-Loads parsers tz memory zone n h
  Stored-Loads (date_time_column memory zone) n h = date_times-Loads parsers tz memory zone n h
  Stored-Loads (date_time64_column memory precision zone) n h = absurd h
  Stored-Loads (ip_column v inner) n h = addresses-Loads parsers tz v inner n h
  Stored-Loads (nullable_column inner nulls) n (flat, count, fits, h) =
      nullable-Loads inner nulls n flat count fits (Stored-Loads inner n h)
  Stored-Loads (fixed_string_column buffer str_len) n h = fixed-Loads parsers tz buffer str_len n h
  Stored-Loads (array_column inner offsets) n (os, small, e, count, fits, h) =
      rw (e, ← count)
        (array-Loads inner os small (rw (← e) fits) (Stored-Loads inner (last_of 0 os) h))
  Stored-Loads (decimal_column inner precision scale nobits) n h = absurd h
  Stored-Loads (enum8_column values inner) n (e, memory, same, size, small) =
      rw same (enum8-Loads values memory n e size small)
  Stored-Loads (enum16_column values inner) n (other, e, memory, same, size, small) =
      rw same (enum16-Loads values memory n other e size small)
  Stored-Loads (chunk_column inner start end) n h = absurd h
