-- ===== src/Column/TypeName.antt =====
-- src/types/column/factory.rs: what the name of a type stands for. The parsers that are made with the
-- `combine` crate are parameters.
pub mod Parses
use clickhouse_srv.Common.{
  ℕ, ◌+◌, ◌-◌, ◌*◌, ◌^◌, [], ◌∷◌, length, take, drop, Bool, true, false, not, ◌&&◌, ◌||◌, Option,
  none, some, ltb, leb, ◌==◌, if◌then◌else◌, get_elem?,
}
use clickhouse_srv.Common.Text.{Text, text}
use clickhouse_srv.Errors.{Outcome, ok, panicked, ◌>>=◌}

to_lower : ℕ → ℕ
to_lower c = if leb 65 c && leb c 90 then c + 32 else c

unfoldable pub eq_ignore_ascii_case : Text → Text → Bool
unfolding to_lower
eq_ignore_ascii_case [] [] = true
eq_ignore_ascii_case [] (y ∷ ys) = false
eq_ignore_ascii_case (x ∷ xs) [] = false
eq_ignore_ascii_case (x ∷ xs) (y ∷ ys) = to_lower x == to_lower y && eq_ignore_ascii_case xs ys

unfoldable pub starts_with : Text → Text → Bool
starts_with xs [] = true
starts_with [] (y ∷ ys) = false
starts_with (x ∷ xs) (y ∷ ys) = x == y && starts_with xs ys

-- `str::is_char_boundary`
unfoldable pub is_char_boundary : Text → ℕ → Bool
is_char_boundary xs i = elim (get_elem? xs i) [
  | none ↦ i == length xs
  | some b ↦ ltb b 128 || leb 192 b
]

-- `&source[start..end]`
unfoldable pub str_slice : Text → ℕ → ℕ → Outcome Text
unfolding is_char_boundary
str_slice source start end =
    if leb start end
      && leb end (length source)
      && (is_char_boundary source start && is_char_boundary source end)
    then ok (take (end - start) (drop start source))
    else panicked

-- `str::parse` of an unsigned type of `modulus` values: one `+` may stand in front of the digits.
unfoldable pub parse_digits : ℕ → ℕ → Text → Option ℕ
parse_digits modulus acc [] = some acc
parse_digits modulus acc (c ∷ cs) =
    let next = acc * 10 + (c - 48) in
    let rest = parse_digits modulus next cs in
    if leb 48 c && leb c 57 && ltb next modulus then rest else none

unfoldable pub parse_nonempty : ℕ → Text → Option ℕ
parse_nonempty modulus [] = none
parse_nonempty modulus (c ∷ cs) = parse_digits modulus 0 (c ∷ cs)

unfoldable pub parse_unsigned : ℕ → Text → Option ℕ
unfolding parse_digits parse_nonempty
parse_unsigned modulus [] = none
parse_unsigned modulus (c ∷ cs) =
    if c == 43 then parse_nonempty modulus cs else parse_nonempty modulus (c ∷ cs)

unfoldable pub parse_fixed_string : Text → Outcome (Option ℕ)
unfolding starts_with str_slice parse_unsigned
parse_fixed_string source =
    if not (starts_with source (text "FixedString"))
    then ok none
    else str_slice source 12 (length source - 1) >>= λ inner_size.
        ok (parse_unsigned (2 ^ 64) inner_size)

unfoldable pub parse_nullable_type : Text → Outcome (Option Text)
unfolding starts_with str_slice
parse_nullable_type source =
    if not (starts_with source (text "Nullable"))
    then ok none
    else str_slice source 9 (length source - 1) >>= λ inner_type.
        ok (if starts_with inner_type (text "Nullable") then none else some inner_type)

unfoldable pub parse_array_type : Text → Outcome (Option Text)
unfolding starts_with str_slice
parse_array_type source =
    if not (starts_with source (text "Array"))
    then ok none
    else str_slice source 6 (length source - 1) >>= λ inner_type. ok (some inner_type)
