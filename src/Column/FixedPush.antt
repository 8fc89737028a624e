-- ===== src/Column/FixedPush.antt =====
-- `FixedStringColumnData::push` of src/types/column/fixed_string.rs.
use clickhouse_srv.Common.{
  ℕ, ◌+◌, ◌-◌, ◌≤◌, ◌≡◌, min, List, ◌++◌, length, take, replicate, arith, take_prefix, append-nil,
  length-append,
}
use clickhouse_srv.Common.Text.{Text}

-- `Vec::resize`
unfoldable pub resize : List ℕ → ℕ → ℕ → List ℕ
resize xs n v = take n xs ++ replicate (n - length xs) v

unfoldable pub fixed_string_push : List ℕ → ℕ → Text → List ℕ
unfolding resize
fixed_string_push buffer str_len bs =
    let l = min (length bs) str_len in
    resize (buffer ++ take l bs) (length buffer + (str_len - l)) 0

-- A text that fills the width of the column, or is longer, is lost when it is pushed: the buffer stays as
-- it was.
pub fixed_string_push-full :
    (buffer : List ℕ) (str_len : ℕ) (bs : Text)
    → str_len ≤ length bs
    → fixed_string_push buffer str_len bs ≡ buffer
unfolding fixed_string_push
fixed_string_push-full buffer str_len bs full =
    let l : ℕ = min (length bs) str_len in
    let cut : length buffer + (str_len - l) ≡ length buffer = omega arith in
    let none_left : length buffer - length (buffer ++ take l bs) ≡ 0 =
      omega (arith, length-append buffer (take l bs)) in
    rw (cut, take_prefix buffer (take l bs), none_left, append-nil)
