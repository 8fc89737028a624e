-- ===== src/Scalar/RoundTrip.antt =====
-- Each primitive type comes back from its bytes.
use clickhouse_srv.Common.{
  ℕ, ◌+◌, ◌*◌, ◌/◌, ◌%◌, ◌^◌, ◌<◌, ◌≡◌, refl, ap, ◌∙◌, List, [], ◌∷◌, length, arith, bit_or, true,
  false,
}
use clickhouse_srv.Common.Bits.{bit_or_high}
use clickhouse_srv.Common.Int.{ℤ, pos, negsuc, to_word, of_word, InRange}
use clickhouse_srv.Errors.{ok}
use clickhouse_srv.Scalar.Bytes.{le_bytes, of_le_bytes, of_le_bytes-le_bytes, length-le_bytes}
use clickhouse_srv.Scalar.{
  Scalar, u8, u16, u32, u64, i8, i16, i32, i64, f32, f64, bool, Primitive, p_u8, p_u16, p_u32,
  p_u64, p_i8, p_i16, p_i32, p_i64, p_f32, p_f64, p_bool, Carrier, scalar, Fits,
}
use native.Mathlib.Nat.{mod-eq_of_lt}

or_high : (s x b m : ℕ) → x < 2 ^ s → b * 2 ^ s < m → bit_or x (b * 2 ^ s % m) ≡ x + b * 2 ^ s
or_high s x b m h fits = rw (mod-eq_of_lt fits) (bit_or_high s x b h)

-- The unsigned types write their bytes, lowest first, and read the number that bytes stand for.
u16_marshal : (v : ℕ) → u16.marshal v u16.buffer ≡ ok (le_bytes 2 v)
unfolding u16 le_bytes
u16_marshal v = ground arith

pub u32_marshal : (v : ℕ) → u32.marshal v u32.buffer ≡ ok (le_bytes 4 v)
unfolding u32 le_bytes
u32_marshal v = ground arith

pub u64_marshal : (v : ℕ) → u64.marshal v u64.buffer ≡ ok (le_bytes 8 v)
unfolding u64 le_bytes
u64_marshal v = ground arith

u16_unmarshal : (v : ℕ) → u16.unmarshal (le_bytes 2 v) ≡ ok (of_le_bytes (le_bytes 2 v))
unfolding u16 le_bytes of_le_bytes
u16_unmarshal v =
    rw (or_high 8 (v % 256) (v / 256 % 256) (2 ^ 16) (omega arith) (omega arith)) (ground arith)

pub u32_unmarshal : (v : ℕ) → u32.unmarshal (le_bytes 4 v) ≡ ok (of_le_bytes (le_bytes 4 v))
unfolding u32 le_bytes of_le_bytes
u32_unmarshal v =
    let b0 : ℕ = v % 256 in
    let b1 : ℕ = v / 256 % 256 in
    let b2 : ℕ = v / 256 / 256 % 256 in
    let b3 : ℕ = v / 256 / 256 / 256 % 256 in
    rw (or_high 8 b0 b1 (2 ^ 32) (omega arith) (omega arith)) (
      rw (or_high 16 (b0 + b1 * 2 ^ 8) b2 (2 ^ 32) (omega arith) (omega arith)) (
        rw (or_high 24 (b0 + b1 * 2 ^ 8 + b2 * 2 ^ 16) b3 (2 ^ 32) (omega arith) (omega arith))
          (ground arith)))

pub u64_unmarshal : (v : ℕ) → u64.unmarshal (le_bytes 8 v) ≡ ok (of_le_bytes (le_bytes 8 v))
unfolding u64 le_bytes of_le_bytes
u64_unmarshal v =
    let b0 : ℕ = v % 256 in
    let b1 : ℕ = v / 256 % 256 in
    let b2 : ℕ = v / 256 / 256 % 256 in
    let b3 : ℕ = v / 256 / 256 / 256 % 256 in
    let b4 : ℕ = v / 256 / 256 / 256 / 256 % 256 in
    let b5 : ℕ = v / 256 / 256 / 256 / 256 / 256 % 256 in
    let b6 : ℕ = v / 256 / 256 / 256 / 256 / 256 / 256 % 256 in
    let b7 : ℕ = v / 256 / 256 / 256 / 256 / 256 / 256 / 256 % 256 in
    let s2 : ℕ = b0 + b1 * 2 ^ 8 in
    let s3 : ℕ = s2 + b2 * 2 ^ 16 in
    let s4 : ℕ = s3 + b3 * 2 ^ 24 in
    let s5 : ℕ = s4 + b4 * 2 ^ 32 in
    let s6 : ℕ = s5 + b5 * 2 ^ 40 in
    let s7 : ℕ = s6 + b6 * 2 ^ 48 in
    rw (or_high 8 b0 b1 (2 ^ 64) (omega arith) (omega arith)) (
      rw (or_high 16 s2 b2 (2 ^ 64) (omega arith) (omega arith)) (
        rw (or_high 24 s3 b3 (2 ^ 64) (omega arith) (omega arith)) (
          rw (or_high 32 s4 b4 (2 ^ 64) (omega arith) (omega arith)) (
            rw (or_high 40 s5 b5 (2 ^ 64) (omega arith) (omega arith)) (
              rw (or_high 48 s6 b6 (2 ^ 64) (omega arith) (omega arith))
                (rw (or_high 56 s7 b7 (2 ^ 64) (omega arith) (omega arith)) (ground arith)))))))

-- The signed types write the bytes of their pattern.
i8_marshal : (v : ℤ) → i8.marshal v i8.buffer ≡ ok (le_bytes 1 (to_word (2 ^ 8) v))
unfolding i8 to_word le_bytes
i8_marshal (pos n) = ground arith
i8_marshal (negsuc n) = ground arith

i16_marshal : (v : ℤ) → i16.marshal v i16.buffer ≡ ok (le_bytes 2 (to_word (2 ^ 16) v))
unfolding i16 to_word le_bytes
i16_marshal (pos n) = ground arith
i16_marshal (negsuc n) = ground arith

i32_marshal : (v : ℤ) → i32.marshal v i32.buffer ≡ ok (le_bytes 4 (to_word (2 ^ 32) v))
unfolding i32 to_word le_bytes
i32_marshal (pos n) = ground arith
i32_marshal (negsuc n) = ground arith

i64_marshal : (v : ℤ) → i64.marshal v i64.buffer ≡ ok (le_bytes 8 (to_word (2 ^ 64) v))
unfolding i64 to_word le_bytes
i64_marshal (pos n) = ground arith
i64_marshal (negsuc n) = ground arith

i8_unmarshal :
    (w : ℕ) → i8.unmarshal (le_bytes 1 w) ≡ ok (of_word (2 ^ 7) (of_le_bytes (le_bytes 1 w)))
unfolding i8 le_bytes of_le_bytes of_word
i8_unmarshal w = ground arith

i16_unmarshal :
    (w : ℕ) → i16.unmarshal (le_bytes 2 w) ≡ ok (of_word (2 ^ 15) (of_le_bytes (le_bytes 2 w)))
unfolding i16 u16
i16_unmarshal w = rw (u16_unmarshal w, i16)

i32_unmarshal :
    (w : ℕ) → i32.unmarshal (le_bytes 4 w) ≡ ok (of_word (2 ^ 31) (of_le_bytes (le_bytes 4 w)))
unfolding i32 u32
i32_unmarshal w = rw (u32_unmarshal w, i32)

i64_unmarshal :
    (w : ℕ) → i64.unmarshal (le_bytes 8 w) ≡ ok (of_word (2 ^ 63) (of_le_bytes (le_bytes 8 w)))
unfolding i64 u64
i64_unmarshal w = rw (u64_unmarshal w, i64)

-- A word of two halves gives back the integer that it was made from.
of_word-to_word : (half : ℕ) (v : ℤ) → InRange half v → of_word half (to_word (half + half) v) ≡ v
unfolding of_word to_word
of_word-to_word half (pos n) h = rw (mod-eq_of_lt fits) (ground arith)
  where
    fits : n < half + half
    fits = omega arith
of_word-to_word half (negsuc n) h = rw (mod-eq_of_lt fits) (ground arith)
  where
    fits : n < half + half
    fits = omega arith

-- What it means that `v` comes back from its bytes, through a buffer of the type's size.
abbrev pub ReadsBack : {V : Type 0} → Scalar V → V → Type 0
ReadsBack sc v =
    (bs : List ℕ) × (sc.marshal v sc.buffer ≡ ok bs)
    × (length bs ≡ length sc.buffer)
    × (sc.unmarshal bs ≡ ok v)

unsigned_back :
    (sc : Scalar ℕ) (k v : ℕ)
    → sc.marshal v sc.buffer ≡ ok (le_bytes k v)
    → k ≡ length sc.buffer
    → sc.unmarshal (le_bytes k v) ≡ ok (of_le_bytes (le_bytes k v))
    → v < 256 ^ k
    → ReadsBack sc v
unsigned_back sc k v m size u h =
    (le_bytes k v, m, length-le_bytes k v ∙ size, u ∙ ap ok (of_le_bytes-le_bytes k v h))

to_word-lt : (half : ℕ) (v : ℤ) → InRange half v → to_word (half + half) v < half + half
unfolding to_word
to_word-lt half (pos n) h = let fits : n < half + half = omega arith in rw (mod-eq_of_lt fits) fits
to_word-lt half (negsuc n) h = omega arith

signed_back :
    (sc : Scalar ℤ) (k half : ℕ) (v : ℤ)
    → sc.marshal v sc.buffer ≡ ok (le_bytes k (to_word (half + half) v))
    → k ≡ length sc.buffer
    → sc.unmarshal (le_bytes k (to_word (half + half) v))
      ≡ ok (of_word half (of_le_bytes (le_bytes k (to_word (half + half) v))))
    → half + half ≡ 256 ^ k
    → InRange half v
    → ReadsBack sc v
signed_back sc k half v m size u pow h = (
  le_bytes k (to_word (half + half) v),
  m,
  length-le_bytes k _ ∙ size,
  u
      ∙ ap (λ w. ok (of_word half w)) (of_le_bytes-le_bytes k _ (rw (← pow) (to_word-lt half v h)))
      ∙ ap ok (of_word-to_word half v h),
)

-- Every value of every primitive type fills the type's buffer and is read back from it.
pub unmarshal-marshal : (p : Primitive) (v : Carrier p) → Fits p v → ReadsBack (scalar p) v
unfolding u8 u16 u32 u64 i8 i16 i32 i64 f32 f64 bool
unmarshal-marshal p_u8 v h = (v ∷ [], refl, refl, refl)
unmarshal-marshal p_u16 v h = unsigned_back u16 2 v (u16_marshal v) refl (u16_unmarshal v) h
unmarshal-marshal p_u32 v h = unsigned_back u32 4 v (u32_marshal v) refl (u32_unmarshal v) h
unmarshal-marshal p_u64 v h = unsigned_back u64 8 v (u64_marshal v) refl (u64_unmarshal v) h
unmarshal-marshal p_i8 v h = signed_back i8 1 (2 ^ 7) v (i8_marshal v) refl (i8_unmarshal _) refl h
unmarshal-marshal p_i16 v h =
    signed_back i16 2 (2 ^ 15) v (i16_marshal v) refl (i16_unmarshal _) refl h
unmarshal-marshal p_i32 v h =
    signed_back i32 4 (2 ^ 31) v (i32_marshal v) refl (i32_unmarshal _) refl h
unmarshal-marshal p_i64 v h =
    signed_back i64 8 (2 ^ 63) v (i64_marshal v) refl (i64_unmarshal _) refl h
unmarshal-marshal p_f32 v h = unsigned_back f32 4 v (u32_marshal v) refl (u32_unmarshal v) h
unmarshal-marshal p_f64 v h = unsigned_back f64 8 v (u64_marshal v) refl (u64_unmarshal v) h
unmarshal-marshal p_bool true h = (1 ∷ [], refl, refl, refl)
unmarshal-marshal p_bool false h = (0 ∷ [], refl, refl, refl)
