-- ===== src/Column/Load/RoundTrip.antt =====
-- What a column saves its type's name loads.
use clickhouse_srv.Common.{
  ℕ, zero, suc, ◌+◌, ◌*◌, ◌≤◌, ◌<◌, ◌^◌, ◌≡◌, refl, sym, ◌∙◌, List, length, false, arith,
}
use clickhouse_srv.Common.Text.{Text, text}
use clickhouse_srv.Errors.{Outcome, ok}
use clickhouse_srv.Scalar.{Primitive, p_u16, p_u32, u16, u32}
use clickhouse_srv.Types.SqlType.{SqlType, to_string}
use clickhouse_srv.Types.SqlType as Types
use clickhouse_srv.Binary.Cursor.{cursor}
use clickhouse_srv.Binary.Gives.{Gives, Gives-free, Gives-map, Gives-lift}
use clickhouse_srv.Binary.Encoder.Writes.{Writes}
use clickhouse_srv.Column.StringPool.{StringPool}
use clickhouse_srv.Column.StringPool.Contents.{Holds, Storable, len-Holds, get-Holds}
use clickhouse_srv.Column.Memory.{size_of}
use clickhouse_srv.Column.TypeName.{starts_with, eq_ignore_ascii_case}
use clickhouse_srv.Column.Branch.{TypeParsers}
use clickhouse_srv.Column.Data.{
  IpVersion, v_ipv4, v_ipv6, v_uuid, ip_size, ip_type, ColumnData, vector_column, string_column,
  date_column, date_time_column, ip_column, fixed_string_column, sql_type, save,
}
use clickhouse_srv.Column.Load.{
  load_vector, load_date, load_date_time, load_date_time64, load_nullable, load_array, load_decimal,
  load_enum8, load_enum16, load_branch, load_named,
}
use clickhouse_srv.Column.Load.Stored.{Flat, Stored, Same}
use clickhouse_srv.Column.Load.Memory.{
  Writes-save_data, Gives-read_memory, Gives-load_ip, Gives-load_fixed_string,
}
use clickhouse_srv.Column.Load.Strings.{texts, Writes-string_column, Gives-string_column}
use clickhouse_srv.Column.Branch.{
  Branch, numbers, strings_of, dates, date_times, addresses, fixed_strings, match_str, named_arms,
  branch,
}
use clickhouse_srv.Column.Branch.Names.{number_type, branch-numbers, branch-fixed}

module _ (parsers : TypeParsers) (tz : Text) where
  -- A column is saved as bytes that the name of its type loads, given fuel for the name.
  abbrev pub Loads : ColumnData → ℕ → Type 0
  Loads column n =
      (t : SqlType) × (sql_type column ≡ ok t)
      × (Flat column → starts_with (to_string t) (text "Nullable") ≡ false)
      × (bs : List ℕ) × Writes (save column 0 n) bs
      × ((fuel : ℕ)
          → length (to_string t) + 2 ≤ fuel
          → (column' : ColumnData) × Gives (load_named parsers tz fuel (to_string t) n) bs
              (ok column')
            × Same tz column column')

  -- A name is loaded by its branch.
  pub by_branch :
      (fuel n : ℕ) (name : Text) (b : Branch) (bs : List ℕ) (o : Outcome ColumnData)
      → branch parsers name ≡ ok b
      → Gives (load_branch parsers tz (load_named parsers tz fuel) name n b) bs o
      → Gives (load_named parsers tz (suc fuel) name n) bs o
  unfolding load_named
  by_branch fuel n name b bs o e g =
      Gives-free _ (load_branch parsers tz (load_named parsers tz fuel) name n) bs b o
        (Gives-lift (branch parsers name) b e) g

  -- A column whose branch loads `bs`, given fuel for the inner types.
  pub nested :
      (column : ColumnData) (n : ℕ) (t : SqlType) (b : Branch) (bs : List ℕ)
      → sql_type column ≡ ok t
      → (Flat column → starts_with (to_string t) (text "Nullable") ≡ false)
      → branch parsers (to_string t) ≡ ok b
      → Writes (save column 0 n) bs
      → ((fuel : ℕ)
          → length (to_string t) + 1 ≤ fuel
          → (column' : ColumnData) × Gives
              (load_branch parsers tz (load_named parsers tz fuel) (to_string t) n b)
              bs
              (ok column')
            × Same tz column column')
      → Loads column n
  nested column n t b bs typed plain named writes gives = (t, typed, plain, bs, writes, loads)
    where
      loads :
          (fuel : ℕ)
          → length (to_string t) + 2 ≤ fuel
          → (column' : ColumnData) × Gives
              (load_named parsers tz fuel (to_string t) n)
              bs
              (ok column')
            × Same tz column column'
      loads zero h = absurd (omega arith)
      loads (suc fuel) h =
          let (column', given, same) = gives fuel (omega arith) in
          (column', by_branch fuel n (to_string t) b bs (ok column') named given, same)

  -- One that has no inner types.
  direct :
      (column column' : ColumnData) (n : ℕ) (t : SqlType) (b : Branch) (bs : List ℕ)
      → sql_type column ≡ ok t
      → starts_with (to_string t) (text "Nullable") ≡ false
      → branch parsers (to_string t) ≡ ok b
      → Writes (save column 0 n) bs
      → ((fuel : ℕ)
          → Gives
              (load_branch parsers tz (load_named parsers tz fuel) (to_string t) n b)
              bs
              (ok column'))
      → Same tz column column'
      → Loads column n
  direct column column' n t b bs typed plain named writes gives same =
      nested column n t b bs typed (λ flat. plain) named writes
        (λ fuel h. (column', gives fuel, same))

  pub Gives-number :
      (p : Primitive) (t : SqlType) (memory : List ℕ) (n fuel : ℕ)
      → Types.sql_type p ≡ ok t
      → length memory ≡ n * size_of p
      → length memory < 2 ^ 63
      → 1 ≤ fuel
      → Gives (load_named parsers tz fuel (to_string t) n) memory (ok (vector_column p memory))
  unfolding load_branch load_vector load_date load_date_time load_date_time64 load_nullable
      load_array load_decimal load_enum8 load_enum16
  Gives-number p t memory n zero e size small h = absurd (omega arith)
  Gives-number p t memory n (suc fuel) e size small h =
      by_branch fuel n (to_string t) (numbers p) memory _ (branch-numbers parsers p t e)
        (Gives-map _ (vector_column p) memory memory (Gives-read_memory p n memory size small))

  pub numbers-Loads :
      (p : Primitive) (memory : List ℕ) (n : ℕ)
      → Stored parsers (vector_column p memory) n
      → Loads (vector_column p memory) n
  unfolding sql_type save load_branch load_vector load_date load_date_time load_date_time64
      load_nullable load_array load_decimal load_enum8 load_enum16
  numbers-Loads p memory n (t, e, size, small) =
      direct (vector_column p memory) (vector_column p memory) n t (numbers p) memory e
        (number_type p t e) (branch-numbers parsers p t e)
        (Writes-save_data (size_of p) n memory size)
        (λ fuel.
          Gives-map _ (vector_column p) memory memory (Gives-read_memory p n memory size small))
        refl

  pub strings-Loads :
      (pool : StringPool) (ss : List (List ℕ))
      → Holds pool ss
      → length ss * 24 < 2 ^ 63
      → Storable (length ss) ss
      → Loads (string_column pool) (length ss)
  unfolding sql_type load_branch load_vector load_date load_date_time load_date_time64 load_nullable
      load_array load_decimal load_enum8 load_enum16 branch match_str named_arms to_string
      starts_with eq_ignore_ascii_case
  strings-Loads pool ss held room fits =
      let (pool', gives, held') = Gives-string_column ss room fits in
      direct (string_column pool) (string_column pool') (length ss) Types.string strings_of
        (texts ss) refl refl refl (Writes-string_column pool ss (omega arith) fits held)
        (λ fuel. gives)
        (
          pool',
          refl,
          len-Holds pool' ss held' ∙ sym (len-Holds pool ss held),
          (λ i. get-Holds pool' ss i held' ∙ sym (get-Holds pool ss i held)),
        )

  pub dates-Loads :
      (memory : List ℕ) (zone : Text) (n : ℕ)
      → Stored parsers (date_column memory zone) n
      → Loads (date_column memory zone) n
  unfolding sql_type save load_branch load_vector load_date load_date_time load_date_time64
      load_nullable load_array load_decimal load_enum8 load_enum16 branch match_str named_arms
      to_string starts_with eq_ignore_ascii_case u16
  dates-Loads memory zone n (size, small) =
      direct (date_column memory zone) (date_column memory tz) n Types.date dates memory refl refl
        refl (Writes-save_data 2 n memory size)
        (λ fuel.
          Gives-map _ (λ m. date_column m tz) memory memory
            (Gives-read_memory p_u16 n memory size small))
        refl

  pub date_times-Loads :
      (memory : List ℕ) (zone : Text) (n : ℕ)
      → Stored parsers (date_time_column memory zone) n
      → Loads (date_time_column memory zone) n
  unfolding sql_type save load_branch load_vector load_date load_date_time load_date_time64
      load_nullable load_array load_decimal load_enum8 load_enum16 branch match_str named_arms
      to_string starts_with eq_ignore_ascii_case u32
  date_times-Loads memory zone n (size, small) =
      direct (date_time_column memory zone) (date_time_column memory tz) n
        (Types.date_time Types.date_time32) date_times memory refl refl refl
        (Writes-save_data 4 n memory size)
        (λ fuel.
          Gives-map _ (λ m. date_time_column m tz) memory memory
            (Gives-read_memory p_u32 n memory size small))
        refl

  pub addresses-Loads :
      (v : IpVersion) (inner : List ℕ) (n : ℕ)
      → Stored parsers (ip_column v inner) n
      → Loads (ip_column v inner) n
  unfolding sql_type save load_branch load_vector load_date load_date_time load_date_time64
      load_nullable load_array load_decimal load_enum8 load_enum16 branch match_str named_arms
      to_string starts_with eq_ignore_ascii_case ip_type
  addresses-Loads v inner n (size, small) =
      direct (ip_column v inner) (ip_column v inner) n (ip_type v) (addresses v) inner refl
        (address_plain v) (address_branch v) (Writes-save_data (ip_size v) n inner size)
        (λ fuel. Gives-load_ip v n inner size small) refl
    where
      address_plain :
          (v : IpVersion) → starts_with (to_string (ip_type v)) (text "Nullable") ≡ false
      address_plain v_ipv4 = refl
      address_plain v_ipv6 = refl
      address_plain v_uuid = refl

      address_branch : (v : IpVersion) → branch parsers (to_string (ip_type v)) ≡ ok (addresses v)
      address_branch v_ipv4 = refl
      address_branch v_ipv6 = refl
      address_branch v_uuid = refl

  pub fixed-Loads :
      (buffer : List ℕ) (str_len n : ℕ)
      → Stored parsers (fixed_string_column buffer str_len) n
      → Loads (fixed_string_column buffer str_len) n
  unfolding sql_type save load_branch load_vector load_date load_date_time load_date_time64
      load_nullable load_array load_decimal load_enum8 load_enum16 to_string starts_with
  fixed-Loads buffer str_len n (size, small, width, some_width) =
      direct (fixed_string_column buffer str_len) (fixed_string_column buffer str_len) n
        (Types.fixed_string str_len) (fixed_strings str_len) buffer refl refl
        (branch-fixed parsers str_len width) (Writes-save_data str_len n buffer size)
        (λ fuel. Gives-load_fixed_string n str_len buffer size small) refl
