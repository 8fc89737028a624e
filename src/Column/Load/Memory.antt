-- ===== src/Column/Load/Memory.antt =====
-- Columns whose memory is written and read back as it stands.
use clickhouse_srv.Common.{
  ℕ, zero, suc, ◌+◌, ◌*◌, ◌%◌, ◌^◌, ◌<◌, ◌≡◌, sym, ap, ◌∙◌, List, [], ◌∷◌, ◌++◌, length, take, drop,
  arith, append_assoc, append-nil, length-append, length-take, length-drop, take-append-drop,
}
use mathlib.Core.Path.{subst}
use native.Mathlib.Nat.{mod-eq_of_lt}
use clickhouse_srv.Errors.{ok, ◌>>=◌}
use clickhouse_srv.Binary.Cursor.{cursor}
use clickhouse_srv.Errors.Index.{slice, slice_whole}
use clickhouse_srv.Scalar.{Primitive}
use clickhouse_srv.Binary.Gives.{
  Gives, Gives-bind, Gives-free, Gives-map, Gives-pure, Gives-read_bytes, Gives-allocate,
}
use clickhouse_srv.Binary.Encoder.{write_bytes}
use clickhouse_srv.Binary.Encoder.Writes.{Writes, Writes-write_bytes}
use clickhouse_srv.Column.Memory.{size_of, read_memory, save_data}
use clickhouse_srv.Column.Data.{IpVersion, ip_size, ip_column}
use clickhouse_srv.Column.Load.{load_ip, load_fixed, load_fixed_string}
use clickhouse_srv.Column.Data.{fixed_string_column}

pub Writes-save_data :
    (size n : ℕ) (memory : List ℕ)
    → length memory ≡ n * size
    → Writes (save_data size memory 0 n) memory
unfolding save_data
Writes-save_data size n memory e =
    let first : 0 * size ≡ 0 = omega arith in
    let whole : slice memory (0 * size) (n * size) ≡ ok memory =
      ap (λ (i : ℕ). slice memory i (n * size)) first ∙ slice_whole memory (n * size) (sym e) in
    record {
      at = λ buffer.
          ap (λ o. o >>= λ bytes. write_bytes bytes (record { buffer = buffer })) whole
          ∙ (Writes-write_bytes memory).at buffer;
    }

pub Gives-read_memory :
    (p : Primitive) (n : ℕ) (memory : List ℕ)
    → length memory ≡ n * size_of p
    → length memory < 2 ^ 63
    → Gives (read_memory p n) memory (ok memory)
unfolding read_memory
Gives-read_memory p n memory e h =
    Gives-free _ _ memory _ _ (Gives-allocate (n * size_of p) (rw (← e) h))
      (Gives-read_bytes (n * size_of p) memory e)

pub Gives-load_ip :
    (v : IpVersion) (n : ℕ) (inner : List ℕ)
    → length inner ≡ n * ip_size v
    → length inner < 2 ^ 63
    → Gives (load_ip v n) inner (ok (ip_column v inner))
unfolding load_ip
Gives-load_ip v n inner e h =
    let fits : n * ip_size v % 2 ^ 64 ≡ n * ip_size v = mod-eq_of_lt (rw (← e) omega arith) in
    rw fits (
      Gives-free _ _ inner _ _ (Gives-allocate (n * ip_size v) (rw (← e) h))
        (Gives-map _ _ inner inner (Gives-read_bytes (n * ip_size v) inner e)))

Gives-load_fixed :
    (n str_len : ℕ) (buffer bs : List ℕ)
    → length bs ≡ n * str_len
    → length buffer + length bs < 2 ^ 63
    → Gives (load_fixed n str_len buffer) bs (ok (buffer ++ bs))
unfolding load_fixed
Gives-load_fixed zero str_len buffer [] e h = rw append-nil (Gives-pure buffer)
Gives-load_fixed zero str_len buffer (b ∷ bs) e h = absurd (omega (arith, e))
Gives-load_fixed (suc n) str_len buffer bs e h =
    let front : List ℕ = take str_len bs in
    let behind : List ℕ = drop str_len bs in
    let whole : length bs ≡ str_len + n * str_len = grind arith in
    let front_length : length front ≡ str_len = omega (arith, length-take str_len bs) in
    let behind_length : length behind ≡ n * str_len = omega (arith, length-drop str_len bs) in
    subst (λ (t : List ℕ). Gives (load_fixed (suc n) str_len buffer) t (ok (buffer ++ t)))
      (take-append-drop str_len bs)
      (Gives-free _ _ (front ++ behind) _ _ (Gives-allocate (length buffer + str_len) (omega arith))
        (Gives-bind _ _ front behind front _ (Gives-read_bytes str_len front front_length) (
          rw (← append_assoc buffer front behind) (
            Gives-load_fixed n str_len (buffer ++ front) behind behind_length
              (omega (arith, length-append buffer front))))))

pub Gives-load_fixed_string :
    (n str_len : ℕ) (buffer : List ℕ)
    → length buffer ≡ n * str_len
    → length buffer < 2 ^ 63
    → Gives (load_fixed_string n str_len) buffer (ok (fixed_string_column buffer str_len))
unfolding load_fixed_string
Gives-load_fixed_string n str_len buffer e h =
    let fits : n * str_len % 2 ^ 64 ≡ n * str_len = mod-eq_of_lt (rw (← e) omega arith) in
    rw fits (
      Gives-free _ _ buffer _ _ (Gives-allocate (n * str_len) (rw (← e) h))
        (Gives-map _ _ buffer buffer (Gives-load_fixed n str_len [] buffer e (omega arith))))
