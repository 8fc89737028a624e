-- ===== src/Binary/RoundTrip.antt =====
-- `read_uvarint` and `read_string` of src/binary/read_ex.rs on what the encoder writes.
use clickhouse_srv.Common.{
  ℕ, zero, suc, ◌+◌, ◌*◌, ◌/◌, ◌%◌, ◌^◌, ◌≤◌, ◌<◌, ◌≡◌, refl, ap, ◌∙◌, List, [], ◌∷◌, ◌++◌, length,
  none, bit_or, bit_and, ltb, ◌==◌, ◌&&◌, arith, append_assoc, le_or_lt, inl, inr, lt→ltb, false,
  Bool-cases, ==→eq, le→ltb-false, take_prefix, drop_prefix, length-append,
}
use clickhouse_srv.Common.Bits.{low_seven, bit_or_high}
use clickhouse_srv.Common.Text.{Text}
use clickhouse_srv.Errors.{ok}
use clickhouse_srv.Errors.Utf8.{utf8_fault}
use clickhouse_srv.Scalar.{u8}
use clickhouse_srv.Binary.Reader.{◌>>=◌}
use clickhouse_srv.Binary.ReadEx.{
  read_bytes, read_scalar, read_uvarint_loop, read_uvarint, read_string, max_rounds, allocate,
  from_utf8, shift_left,
}
use clickhouse_srv.Binary.Cursor.{cursor, Cursor, read_bytes-enough}
use clickhouse_srv.Binary.Varint.{groups, varint, groups-last, groups-more}
use native.Mathlib.Nat.{pow-suc, mod-eq_of_lt, div-add-mod}
use native.Mathlib.Numerals.{towards_suc}

pub read_bytes-append : (bs rest : List ℕ) → read_bytes (length bs) (bs ++ rest) ≡ ok (bs, rest)
read_bytes-append bs rest =
    read_bytes-enough (length bs) (bs ++ rest) (omega (arith, length-append bs rest))
    ∙ rw (take_prefix bs rest, drop_prefix bs rest)

pub read_u8 : (b : ℕ) (rest : Cursor) → read_scalar u8 (b ∷ rest) ≡ ok (b, rest)
unfolding read_scalar u8 ◌>>=◌
read_u8 b rest = rw (read_bytes-append (b ∷ []) rest)

-- The round that ends the loop, and one that goes on.
pub last_round :
    (fuel x s i b : ℕ) (rest : Cursor)
    → b < 128
    → (i == 9 && ltb 1 b) ≡ false
    → read_uvarint_loop (suc fuel) x s i (b ∷ rest) ≡ ok (bit_or x (shift_left b s), rest)
unfolding read_uvarint_loop ◌>>=◌
last_round fuel x s i b rest h fits = rw (read_u8, lt→ltb b 128 h, fits)

pub inner_round :
    (fuel x s i b : ℕ) (rest : Cursor)
    → 128 ≤ b
    → read_uvarint_loop (suc fuel) x s i (b ∷ rest)
      ≡ read_uvarint_loop fuel
          (bit_or x (shift_left (bit_and b 0x7f) s))
          ((s + 7) % 2 ^ 32)
          ((i + 1) % 2 ^ 64)
          rest
unfolding read_uvarint_loop ◌>>=◌
inner_round fuel x s i b rest h = rw (read_u8, le→ltb-false b 128 h)

-- A group of bits that fits lands above the bits that are there.
add_group :
    (x b s : ℕ)
    → x < 2 ^ s
    → s < 64
    → x + b * 2 ^ s < 2 ^ 64
    → bit_or x (shift_left b s) ≡ x + b * 2 ^ s
unfolding shift_left
add_group x b s h short fits =
    rw (mod-eq_of_lt {m = 64} short)
      (rw (mod-eq_of_lt {n = b * 2 ^ s} {m = 2 ^ 64} (omega arith)) (bit_or_high s x b h))

-- The tenth byte of a number that fits 64 bits is at most one.
no_overflow : (x v s i : ℕ) → s ≡ 7 * i → x + v * 2 ^ s < 2 ^ 64 → (i == 9 && ltb 1 v) ≡ false
no_overflow x v s i hs fits = elim (Bool-cases (i == 9)) [
  | inr other ↦ rw other
  | inl ninth ↦
      let at_63 : s ≡ 63 = omega (arith, ==→eq i 9 ninth) in
      rw ninth (le→ltb-false 1 v (omega (arith, ap (λ (t : ℕ). v * 2 ^ t) at_63)))
]

-- The lowest group of `v` and what is above it, both shifted by `s`.
pow_seven : (s : ℕ) → 2 ^ (s + 7) ≡ 128 * 2 ^ s
pow_seven s = simp towards_suc (omega arith)

split_low : (v s : ℕ) → v % 128 * 2 ^ s + v / 128 * 2 ^ (s + 7) ≡ v * 2 ^ s
split_low v s = omega (
  arith,
  ap (λ (t : ℕ). v / 128 * t) (pow_seven s),
  ap (λ (t : ℕ). t * 2 ^ s) (div-add-mod v 128),
)

-- The round on the last byte of `v`, and on a byte before it.
last_byte :
    (k v x s i fuel : ℕ) (rest : Cursor)
    → s ≡ 7 * i
    → s < 64
    → v < 128
    → x < 2 ^ s
    → x + v * 2 ^ s < 2 ^ 64
    → read_uvarint_loop (suc fuel) x s i (groups k v ++ rest) ≡ ok (x + v * 2 ^ s, rest)
last_byte k v x s i fuel rest hs short last hx fits = rw (groups-last k v last) (
    last_round fuel x s i v rest last (no_overflow x v s i hs fits)
    ∙ ap (λ (t : ℕ). ok (t, rest)) (add_group x v s hx short fits))

inner_byte :
    (g x s i fuel : ℕ) (rest : Cursor)
    → g < 128
    → s < 57
    → i < 9
    → x < 2 ^ s
    → x + g * 2 ^ s < 2 ^ 64
    → read_uvarint_loop (suc fuel) x s i ((g + 128) ∷ rest)
      ≡ read_uvarint_loop fuel (x + g * 2 ^ s) (s + 7) (i + 1) rest
inner_byte g x s i fuel rest hg hs hi hx fits =
    let masked : bit_and (g + 128) 0x7f ≡ g = low_seven (g + 128) (omega arith) ∙ omega arith in
    let shift : (s + 7) % 2 ^ 32 ≡ s + 7 = omega arith in
    let count : (i + 1) % 2 ^ 64 ≡ i + 1 = omega arith in
    inner_round fuel x s i (g + 128) rest (omega arith)
    ∙ rw (masked, shift, count) (rw (add_group x g s hx (omega arith) fits))

-- The bits read so far stay below the next group.
below_next : (x g s : ℕ) → x < 2 ^ s → g < 128 → x + g * 2 ^ s < 2 ^ (s + 7)
below_next x g s hx hg =
    let most : g * 2 ^ s ≤ 127 * 2 ^ s = grind arith in omega (arith, pow_seven s, most)

-- `x` holds the bits below `s`, and `v` is what is still to be read, from bit `s` on.
read_loop-groups :
    (k v x s i fuel : ℕ) (rest : Cursor)
    → s ≡ 7 * i
    → i + k ≡ 9
    → v < 128 ^ suc k
    → x < 2 ^ s
    → x + v * 2 ^ s < 2 ^ 64
    → suc k ≤ fuel
    → read_uvarint_loop fuel x s i (groups k v ++ rest) ≡ ok (x + v * 2 ^ s, rest)
read_loop-groups k v x s i zero rest hs hi hv hx fits enough = absurd (omega arith)
read_loop-groups zero v x s i (suc fuel) rest hs hi hv hx fits enough =
    last_byte zero v x s i fuel rest hs (omega arith) (omega arith) hx fits
read_loop-groups (suc k) v x s i (suc fuel) rest hs hi hv hx fits enough = elim (le_or_lt 128 v) [
  | inr last ↦ last_byte (suc k) v x s i fuel rest hs (omega arith) last hx fits
  | inl more ↦
      let g : ℕ = v % 128 in
      let whole : x + g * 2 ^ s + v / 128 * 2 ^ (s + 7) ≡ x + v * 2 ^ s =
        omega (arith, split_low v s) in
      let above : x + g * 2 ^ s < 2 ^ (s + 7) = below_next x g s hx (omega arith) in
      rw (groups-more k v more) (
        inner_byte g x s i fuel _ (omega arith) (omega arith) (omega arith) hx
          (omega (arith, whole))
        ∙ read_loop-groups k (v / 128) (x + g * 2 ^ s) (s + 7) (i + 1) fuel rest (omega arith)
            (omega arith) (omega (arith, pow-suc 128 (suc k))) above (omega (arith, whole))
            (omega arith)
        ∙ ap (λ (t : ℕ). ok (t, rest)) whole)
]

-- `read_uvarint` gives back every number below 2 ^ 64 from its variable-length bytes, and leaves
-- what follows them.
pub read_uvarint-varint :
    (v : ℕ) (rest : Cursor) → v < 2 ^ 64 → read_uvarint (varint v ++ rest) ≡ ok (v, rest)
unfolding read_uvarint varint
read_uvarint-varint v rest h =
    read_loop-groups 9 v 0 0 0 max_rounds rest refl refl (omega arith) (omega arith) (omega arith)
      (omega arith)
    ∙ ap (λ (t : ℕ). ok (t, rest)) (omega arith)

-- What the encoder writes for a text: its length, and its bytes.
unfoldable pub text_bytes : Text → List ℕ
text_bytes t = varint (length t) ++ t

from_utf8-valid : (t : Text) → utf8_fault 0 t ≡ none → from_utf8 t ≡ ok t
unfolding from_utf8
from_utf8-valid t valid = rw (valid, from_utf8)

-- `read_string` gives back every UTF-8 text of less than 2 ^ 63 bytes from its length and its
-- bytes, and leaves what follows them.
pub read_string-text_bytes :
    (t : Text) (rest : Cursor)
    → length t < 2 ^ 63
    → utf8_fault 0 t ≡ none
    → read_string (text_bytes t ++ rest) ≡ ok (t, rest)
unfolding read_string text_bytes allocate ◌>>=◌
read_string-text_bytes t rest short valid = rw (append_assoc (varint (length t)) t rest) (
    rw (read_uvarint-varint (length t) (t ++ rest) (omega arith)) (
      rw (lt→ltb (length t) (2 ^ 63) short)
        (rw (read_bytes-append t rest) (rw (from_utf8-valid t valid)))))
